-- ===== src/Position/Order.antt =====
-- The comparisons of engine/src/position.h as an order, and positions as vectors.
use otx_teste.Common.{◌≡◌, ◌⊎◌, ◌↔◌, true, false, Bool, arith, ◌+◌, ℕ, leb, ◌&&◌}
use otx_teste.Common.Int.{sub_ℕ, abs}
use otx_teste.Position.{Position, Fits, lt, gt, eq, add, sub, are_in_range}

pub lt_trans : (a b c : Position) → lt a b ≡ true → lt b c ≡ true → lt a c ≡ true
unfolding lt
lt_trans a b c h k = ground arith

pub lt_irrefl : (a : Position) → lt a a ≡ false
unfolding lt
lt_irrefl a = ground arith

-- What a key of an ordered map needs of `operator<`.
pub record IsStrictTotal (r : Position → Position → Bool) : Type 0 where
  pub irreflexive : (a : Position) → r a a ≡ false
  pub transitive : (a b c : Position) → r a b ≡ true → r b c ≡ true → r a c ≡ true
  pub total : (a b : Position) → (r a b ≡ true) ⊎ ((a ≡ b) ⊎ (r b a ≡ true))

lt-total : (a b : Position) → (lt a b ≡ true) ⊎ ((a ≡ b) ⊎ (lt b a ≡ true))
unfolding lt
lt-total a b = ground arith

-- `operator<` is irreflexive and transitive, and of two distinct positions one is below the other.
pub lt-IsStrictTotal : IsStrictTotal lt
lt-IsStrictTotal = record { irreflexive = lt_irrefl; transitive = lt_trans; total = lt-total }

-- `operator>` holds of `a` and `b` exactly when `b` is below `a` or they are equal, and so of
-- every position and itself.
pub gt_iff : (a b : Position) → (gt a b ≡ true) ↔ ((lt b a ≡ true) ⊎ (eq a b ≡ true))
unfolding gt lt eq
gt_iff a b = (λ h. ground arith, λ h. ground arith)

-- Subtraction undoes addition on positions that fit, wrapped or not.
pub sub-add : (p d : Position) → Fits p → Fits d → sub (add p d) d ≡ p
unfolding sub add
sub-add p d fp fd = ground arith

-- One coordinate's share of the range test.
axis-metric :
    (d e a b c : ℕ)
    → leb (abs (sub_ℕ a b)) d ≡ true
    → leb (abs (sub_ℕ b c)) e ≡ true
    → (leb (abs (sub_ℕ b a)) d ≡ true) × (leb (abs (sub_ℕ a c)) (d + e) ≡ true)
axis-metric d e a b c h k = ground arith

and3-eq-true : (a b c : Bool) → (a && b && c ≡ true) ↔ ((a ≡ true) × (b ≡ true) × (c ≡ true))
and3-eq-true a b c = ground arith

-- The range test is symmetric, and ranges add up along an intermediate position.
pub are_in_range_metric :
    (dx dy dz ex ey ez : ℕ) (a b c : Position)
    → are_in_range dx dy dz a b ≡ true
    → are_in_range ex ey ez b c ≡ true
    → (are_in_range dx dy dz b a ≡ true) × (are_in_range (dx + ex) (dy + ey) (dz + ez) a c ≡ true)
unfolding are_in_range
are_in_range_metric dx dy dz ex ey ez a b c h k =
    let (hx, hy, hz) = (and3-eq-true _ _ _).0 h in
    let (kx, ky, kz) = (and3-eq-true _ _ _).0 k in
    let (sx, tx) = axis-metric dx ex a.x b.x c.x hx kx in
    let (sy, ty) = axis-metric dy ey a.y b.y c.y hy ky in
    let (sz, tz) = axis-metric dz ez a.z b.z c.z hz kz in
    ((and3-eq-true _ _ _).1 (sx, sy, sz), (and3-eq-true _ _ _).1 (tx, ty, tz))
