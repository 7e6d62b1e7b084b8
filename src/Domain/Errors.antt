-- ===== src/Domain/Errors.antt =====
-- internal/domain/errors.go: the package's errors, wrapped with a text.
use ufo_observation_command.Base.{
  String, Error, sentinel, wrap, conflict, invalid_transition, capacity_exceeded, expired,
}

abbrev pub conflict_error : String → Error
conflict_error msg = wrap msg (sentinel conflict)

abbrev pub transition_error : String → Error
transition_error msg = wrap msg (sentinel invalid_transition)

abbrev pub expired_error : String → Error
expired_error msg = wrap msg (sentinel expired)

-- `ErrExpired` and `ErrCapacityExceeded` as they are.
abbrev pub expired_sentinel : Error
expired_sentinel = sentinel expired

abbrev pub capacity_sentinel : Error
capacity_sentinel = sentinel capacity_exceeded
