-- ===== src/Pagination/Tests.antt =====
-- internal/pagination at concrete windows.
use ufo_observation_command.Base.{pos, negsuc, ◌≡◌, refl}
use ufo_observation_command.Pagination.{normalize}

clamped : normalize (negsuc 4) (pos 1000) ≡ record { offset = pos 0; limit = pos 100 }
unfolding normalize
clamped = refl
