-- ===== src/Shared/RayMath/Unit.antt =====
-- Products by a fraction of one ray, quotients below one ray, and monotonicity.
use native.Mathlib.Nat.{lt_of_mul-lt-mul_right}
use k.Base.{ℕ, ◌+◌, ◌*◌, ◌/◌, ◌≤◌, ◌<◌, ◌≡◌, ◌∙◌, ok, arith, div-le, mul_mono}
use k.Shared.Constants.{IsU128, ray, half_ray}
use k.Shared.Wide.{narrow_ok}
use k.Shared.RayMath.{ray_mul, ray_div}
use k.Shared.RayMath.Closed.{ray_mul_closed, ray_div_closed}
use k.Shared.RayMath.Rounding.{ray_mul-Truncates, ray_div-Truncates}
use k.Shared.RayMath.Scaled.{Truncates-ok}

-- A fraction of `a` is at most `a`, and always fits.
pub ray_mul_unit : (a b : ℕ) → IsU128 a → b ≤ ray → (r : ℕ) × (ray_mul a b ≡ ok r) × (r ≤ a)
ray_mul_unit a b ha hb =
    let product = mul_mono a b a ray (omega arith) hb in
    let r : ℕ = (a * b + half_ray) / ray in
    let small : r ≤ a = div-le (a * b + half_ray) ray a (omega arith) (omega arith) in
    (r, ray_mul_closed a b ha (omega arith) ∙ narrow_ok r (omega arith), small)

-- A part of a whole is at most one ray.
pub ray_div_unit : (a b : ℕ) → 0 < b → IsU128 b → a ≤ b → (r : ℕ) × (ray_div a b ≡ ok r) × (r ≤ ray)
ray_div_unit a b pos hb h =
    let r : ℕ = (a * ray + b / 2) / b in
    let small : r ≤ ray = div-le (a * ray + b / 2) b ray pos (omega arith) in
    (r, ray_div_closed a b (omega arith) hb pos ∙ narrow_ok r (omega arith), small)

pub ray_mul_mono :
    (a b c d r s : ℕ)
    → IsU128 c
    → IsU128 d
    → a ≤ c
    → b ≤ d
    → ray_mul a b ≡ ok r
    → ray_mul c d ≡ ok s
    → r ≤ s
ray_mul_mono a b c d r s hc hd h k e f =
    let t = Truncates-ok _ _ r _ e (ray_mul-Truncates a b (omega arith) (omega arith)) in
    let u = Truncates-ok _ _ s _ f (ray_mul-Truncates c d hc hd) in
    omega (arith, mul_mono a b c d h k)

pub ray_div_mono :
    (a c b r s : ℕ)
    → IsU128 c
    → IsU128 b
    → 0 < b
    → a ≤ c
    → ray_div a b ≡ ok r
    → ray_div c b ≡ ok s
    → r ≤ s
ray_div_mono a c b r s hc hb pos h e f =
    let t = Truncates-ok _ _ r _ e (ray_div-Truncates a b (omega arith) hb pos) in
    let u = Truncates-ok _ _ s _ f (ray_div-Truncates c b hc hb pos) in
    let close : r < s + 1 = lt_of_mul-lt-mul_right b (omega arith) in omega arith
