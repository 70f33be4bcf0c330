-- ===== src/Base/Timestamp/Tests.antt =====
-- Times of base/Timestamp.cpp.
use learning_tools.Prelude.Int.{pos, negsuc, ◌+ℤ◌}
use learning_tools.Prelude.{◌≡◌, refl, true, false}
use learning_tools.Base.Timestamp.{
  add_time, valid, seconds_since_epoch, microseconds_of, le, gt, lt,
}

one_later : add_time (pos 1999999) (pos 1) ≡ pos 2000000
unfolding add_time ◌+ℤ◌
one_later = refl

invalid : valid (pos 0) ≡ false
unfolding valid
invalid = refl

-- Half a second before the Epoch.
before : seconds_since_epoch (negsuc 499999) ≡ pos 0
unfolding seconds_since_epoch
before = refl

before_micros : microseconds_of (negsuc 499999) ≡ negsuc 499999
unfolding microseconds_of
before_micros = refl

le_itself : le (pos 7) (pos 7) ≡ true
unfolding le gt lt
le_itself = refl
