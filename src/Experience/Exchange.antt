-- ===== src/Experience/Exchange.antt =====
-- engine/src/player.cpp: gains and losses of experience together.
use otx_teste.Common.{
  ℕ, zero, suc, ◌+◌, ◌-◌, ◌%◌, ◌^◌, ◌≤◌, ◌<◌, ◌≡◌, refl, ap, ◌∙◌, ◌&&◌, ◌||◌, ltb, leb, ◌==◌,
  if_either, arith, dec_lt,
}
use otx_teste.Experience.{
  Player, Vocation, Span, get_exp_for_level, level_up, level_down, grow, with_percent, gain,
  add_experience, shrink, reduced, lose, remove_experience,
}
use otx_teste.Experience.Curve.{max_level, curve, get_exp_for_level-curve, curve_mono, curve_small}
use otx_teste.Experience.Levels.{
  InLevel, elim_either, add_experience-InLevel, remove_experience-InLevel,
}

curve_below : (n m e : ℕ) → curve n ≤ e → e < curve (suc m) → n ≤ m
curve_below n m e low high = elim (dec_lt m n) [
  | yes more ↦
      let whole : suc m + (n - suc m) ≡ n = omega (arith, more) in
      absurd (omega (arith, rw whole at (curve_mono (suc m) (n - suc m)), low, high))
  | no other ↦ omega (arith, other)
]

InLevel-curve :
    (p : Player)
    → InLevel p
    → (curve (p.level - 1) ≤ p.experience) × (p.experience < curve (suc (p.level - 1)))
InLevel-curve p i =
    let n = p.level - 1 in
    let level : p.level ≡ suc n = omega (arith, i.at_least_one) in
    let after : p.level + 1 ≡ suc (suc n) = omega (arith, level) in
    let now = ap get_exp_for_level level ∙ get_exp_for_level-curve n (omega (arith, i.at_most)) in
    let then_ =
      ap get_exp_for_level after ∙ get_exp_for_level-curve (suc n) (omega (arith, i.at_most)) in
    (omega (arith, now, i.reached), omega (arith, then_, i.next))

-- The experience determines the level.
level_unique :
    (p q : Player) → InLevel p → InLevel q → p.experience ≡ q.experience → p.level ≡ q.level
level_unique p q i j e =
    let (low, high) = InLevel-curve p i in
    let (low', high') = InLevel-curve q j in
    let a = curve_below (p.level - 1) (q.level - 1) p.experience low (omega (arith, e, high')) in
    let b = curve_below (q.level - 1) (p.level - 1) q.experience low' (omega (arith, e, high)) in
    omega (arith, a, b, i.at_least_one, j.at_least_one)

experience-grow :
    (fuel : ℕ) (v : Vocation) (s : Span) → (grow fuel v s).player.experience ≡ s.player.experience
unfolding grow level_up
experience-grow zero v s = refl
experience-grow (suc fuel) v s =
    let p = level_up v s.player in
    let next = get_exp_for_level (p.level + 1) in
    let s' : Span = record {
      player = p;
      curr_level_exp = s.next_level_exp;
      next_level_exp = next;
    } in
    let same : Span → Type 0 = λ r. r.player.experience ≡ s.player.experience in
    elim_either same (leb s.next_level_exp s.player.experience) {y = s}
      (λ e.
        elim_either same (leb next s.next_level_exp) {x = s'} {y = grow fuel v s'} (λ f. refl)
          (λ f. experience-grow fuel v s'))
      (λ e. refl)

experience-shrink :
    (fuel : ℕ) (v : Vocation) (p : Player) → (shrink fuel v p).experience ≡ p.experience
unfolding shrink level_down
experience-shrink zero v p = refl
experience-shrink (suc fuel) v p =
    if_either (λ q. q.experience ≡ p.experience)
      (ltb 1 p.level && ltb p.experience (get_exp_for_level p.level))
      {x = shrink fuel v (level_down v p)} {y = p} (λ e. experience-shrink fuel v (level_down v p))
      (λ e. refl)

experience-add_experience :
    (v : Vocation) (p : Player) (exp : ℕ)
    → InLevel p
    → p.experience + exp < curve max_level
    → (add_experience v (λ e. e) exp p).experience ≡ p.experience + exp
unfolding add_experience gain with_percent
experience-add_experience v p exp i h =
    let same : Player → Type 0 = λ q. q.experience ≡ p.experience + exp in
    let p' : Player = record p { experience = (p.experience + exp) % 2 ^ 64 } in
    let s : Span = record {
      player = p';
      curr_level_exp = get_exp_for_level p.level;
      next_level_exp = get_exp_for_level (p.level + 1);
    } in
    if_either same (leb (get_exp_for_level (p.level + 1)) (get_exp_for_level p.level))
      {x = record p { level_percent = 0 }} {y = gain v exp p}
      (λ e. absurd (ground (arith, e, i.reached, i.next)))
      (λ e.
        if_either same (exp == 0) {x = p} {y = with_percent (grow (p'.experience + 1) v s)}
          (λ f. ground (arith, f))
          (λ f. omega (arith, experience-grow (p'.experience + 1) v s, h, curve_small)))

experience-remove_experience :
    (v : Vocation) (p : Player) (exp : ℕ)
    → p.experience < 2 ^ 62
    → exp < 2 ^ 62
    → (remove_experience v (λ e. e) exp p).experience ≡ p.experience - exp
unfolding remove_experience lose with_percent
experience-remove_experience v p exp h k =
    let same : Player → Type 0 = λ q. q.experience ≡ p.experience - exp in
    let p' : Player = record p { experience = reduced p.experience exp } in
    let q = shrink p.level v p' in
    let less : p'.experience ≡ p.experience - exp = ground (arith, h, k) in
    if_either same ((p.experience == 0) || (exp == 0)) {x = p} {y = lose v exp p}
      (λ e. ground (arith, e))
      (λ e.
        if_either same (exp == 0) {x = p} (λ f. ground (arith, f))
          (λ f. experience-shrink p.level v p' ∙ less))

-- What is gained and lost again, without a script, leaves the level and the experience as they were,
-- for a player whose level is the one that the experience reaches and who stays below level 600001.
pub remove_experience-add_experience :
    (v : Vocation) (p : Player) (exp : ℕ)
    → InLevel p
    → p.experience + exp < curve max_level
    → let q = remove_experience v (λ e. e) exp (add_experience v (λ e. e) exp p) in
      (q.level ≡ p.level) × (q.experience ≡ p.experience)
remove_experience-add_experience v p exp i h =
    let more = add_experience v (λ e. e) exp p in
    let small : exp < 2 ^ 62 = omega (arith, h, curve_small) in
    let gained = experience-add_experience v p exp i h in
    let j = add_experience-InLevel v p i (λ e. e) exp h in
    let q = remove_experience v (λ e. e) exp more in
    let back : q.experience ≡ p.experience =
      experience-remove_experience v more exp (omega (arith, gained, h, curve_small)) small
      ∙ (omega (arith, gained)) in
    (level_unique q p (remove_experience-InLevel v more j (λ e. e) exp small) i back, back)
