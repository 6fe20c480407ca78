-- ===== src/Tests/Gateway.antt =====
-- The gateway's theorems on concrete inputs.
use finflow.Base.{◌≡◌, refl, arith, List, [], ◌∷◌}
use finflow.Base.Int.{pos}
use finflow.Gateway.RateLimit.{new_limiter, bucket_of}
use finflow.Gateway.RateLimit.Window.{Call, allowed, allowed_window}

-- Two calls of another client between five of "10.0.0.1".
abbrev later : List Call
later =
    ("10.0.0.1", 1001)
    ∷ ("10.0.0.2", 1002)
    ∷ ("10.0.0.1", 1003)
    ∷ ("10.0.0.2", 1004)
    ∷ ("10.0.0.1", 1005)
    ∷ ("10.0.0.1", 1059)
    ∷ []

allowed_window_example :
    allowed "10.0.0.1" (("10.0.0.1", 1000) ∷ later) (new_limiter (pos 3) 60) ≡ 3
unfolding bucket_of
allowed_window_example =
    allowed_window "10.0.0.1" 1000 later (new_limiter (pos 3) 60) 3 refl refl
      (omega arith, (omega arith, (omega arith, (omega arith, (omega arith, (omega arith, tt))))))
