-- ===== src/Experience/Levels.antt =====
-- engine/src/player.cpp: a player's level is the one that the experience reaches.
use otx_teste.Common.{
  ℕ, zero, suc, ◌+◌, ◌-◌, ◌%◌, ◌^◌, ◌≤◌, ◌<◌, ◌≡◌, refl, ap, ◌∙◌, Bool, true, false, ◌&&◌, ◌||◌,
  ltb, leb, ◌==◌, if_either, arith, Bool-cases, inl, inr,
}
use otx_teste.Experience.{
  Player, Vocation, Span, get_exp_for_level, level_up, level_down, grow, with_percent, gain,
  add_experience, shrink, reduced, lose, remove_experience,
}
use otx_teste.Experience.Curve.{
  max_level, curve, get_exp_for_level-curve, curve_step, curve_least, curve_bounded, curve_small,
}

-- The level is from 1 to 600000, its points are reached, and those of the next level are not; the
-- experience is below that of level 600001.
pub record InLevel (p : Player) : Type 0 where
  pub at_least_one : 1 ≤ p.level
  pub at_most : p.level ≤ max_level
  pub reached : get_exp_for_level p.level ≤ p.experience
  pub next : p.experience < get_exp_for_level (p.level + 1)
  pub bounded : p.experience < curve max_level

-- The loop of `addExperience` before a turn: the level is n + 1.
record Growing (n : ℕ) (s : Span) : Type 0 where
  level : s.player.level ≡ suc n
  current : s.curr_level_exp ≡ curve n
  following : s.next_level_exp ≡ curve (suc n)
  reached : curve n ≤ s.player.experience
  bounded : s.player.experience < curve max_level

-- And after the loop.
record Grown (s : Span) : Type 0 where
  n : ℕ
  growing : Growing n s
  done : s.player.experience < curve (suc n)

pub elim_either :
    (P : Span → Type 0) (b : Bool) {x y : Span}
    → (b ≡ true → P x)
    → (b ≡ false → P y)
    → P (elim b [ false ↦ y | true ↦ x ])
elim_either P true f g = f refl
elim_either P false f g = g refl

-- With fuel for the levels that are left, the loop ends where the next level is not reached.
grow-Grown :
    (fuel : ℕ) (v : Vocation) (s : Span) (n : ℕ)
    → Growing n s
    → s.player.experience < n + fuel
    → Grown (grow fuel v s)
unfolding grow level_up
grow-Grown zero v s n g h = absurd (omega (arith, curve_least n, g.reached))
grow-Grown (suc fuel) v s n g h =
    elim_either Grown (leb s.next_level_exp s.player.experience)
      (λ e.
        let more : curve (suc n) ≤ s.player.experience = ground (arith, e, g.following) in
        let below = curve_bounded (suc n) s.player.experience more g.bounded in
        let p = level_up v s.player in
        let level : p.level ≡ suc (suc n) = omega (arith, g.level, below) in
        let after : p.level + 1 ≡ suc (suc (suc n)) = omega (arith, level) in
        let next : get_exp_for_level (p.level + 1) ≡ curve (suc (suc n)) =
          ap get_exp_for_level after
          ∙ get_exp_for_level-curve (suc (suc n)) (omega (arith, below)) in
        let s' : Span = record {
          player = p;
          curr_level_exp = s.next_level_exp;
          next_level_exp = get_exp_for_level (p.level + 1);
        } in
        elim_either Grown (leb (get_exp_for_level (p.level + 1)) s.next_level_exp) {x = s'}
          (λ f. absurd (ground (arith, f, next, g.following, curve_step (suc n))))
          (λ f.
            grow-Grown fuel v s' (suc n)
              (record {
                level = level;
                current = g.following;
                following = next;
                reached = more;
                bounded = g.bounded;
              })
              (omega (arith, h))))
      (λ e. record { n = n; growing = g; done = ground (arith, e, g.following) })

-- The percentage changes neither the level nor the experience.
with_percent-InLevel : (s : Span) → InLevel s.player → InLevel (with_percent s)
unfolding with_percent
with_percent-InLevel s i = record {
  at_least_one = i.at_least_one;
  at_most = i.at_most;
  reached = i.reached;
  next = i.next;
  bounded = i.bounded;
}

Grown-InLevel : (s : Span) → Grown s → InLevel s.player
Grown-InLevel s d =
    let g = d.growing in
    let n = d.n in
    let below = curve_bounded n s.player.experience g.reached g.bounded in
    let now : get_exp_for_level s.player.level ≡ curve n =
      ap get_exp_for_level g.level ∙ get_exp_for_level-curve n (omega (arith, below)) in
    let level : s.player.level + 1 ≡ suc (suc n) = omega (arith, g.level) in
    let then_ : get_exp_for_level (s.player.level + 1) ≡ curve (suc n) =
      ap get_exp_for_level level ∙ get_exp_for_level-curve (suc n) (omega (arith, below)) in
    record {
      at_least_one = omega (arith, g.level);
      at_most = omega (arith, g.level, below);
      reached = omega (arith, now, g.reached);
      next = omega (arith, then_, d.done);
      bounded = g.bounded;
    }

-- The level of a player, as a number of levels behind the first.
starts :
    (p : Player) (n : ℕ)
    → p.level ≡ suc n
    → p.level ≤ max_level
    → (get_exp_for_level p.level ≡ curve n) × (get_exp_for_level (p.level + 1) ≡ curve (suc n))
starts p n e h =
    let after : p.level + 1 ≡ suc (suc n) = omega (arith, e) in
    (
      ap get_exp_for_level e ∙ get_exp_for_level-curve n (omega (arith, h, e)),
      ap get_exp_for_level after ∙ get_exp_for_level-curve (suc n) (omega (arith, h, e)),
    )

curve_zero : curve 0 ≡ 0
unfolding curve
curve_zero = refl

-- The loop of `removeExperience`, with fuel for the levels below.
shrink-InLevel :
    (fuel : ℕ) (v : Vocation) (p : Player) (n : ℕ)
    → p.level ≡ suc n
    → n ≤ fuel
    → p.level ≤ max_level
    → p.experience < get_exp_for_level (p.level + 1)
    → p.experience < curve max_level
    → InLevel (shrink fuel v p)
unfolding shrink level_down
shrink-InLevel zero v p n level enough small next bounded =
    let (now, then_) = starts p n level small in
    let first : n ≡ 0 = omega (arith, enough) in
    record {
      at_least_one = omega (arith, level);
      at_most = small;
      reached = omega (arith, now, ap curve first, curve_zero);
      next = next;
      bounded = bounded;
    }
shrink-InLevel (suc fuel) v p n level enough small next bounded =
    let (now, then_) = starts p n level small in
    let q = level_down v p in
    if_either InLevel (ltb 1 p.level && ltb p.experience (get_exp_for_level p.level))
      {x = shrink fuel v q} {y = p}
      (λ e.
        let again : q.level + 1 ≡ p.level = ground (arith, e) in
        shrink-InLevel fuel v q (n - 1) (ground (arith, e, level)) (omega (arith, enough))
          (omega (arith, small)) (ground (arith, e, ap get_exp_for_level again)) bounded)
      (λ e. record {
        at_least_one = omega (arith, level);
        at_most = small;
        reached = elim (Bool-cases (ltb 1 p.level)) [
          | inl f ↦ ground (arith, e, f)
          | inr f ↦
              let first : n ≡ 0 = ground (arith, f, level) in
              omega (arith, now, ap curve first, curve_zero)
        ];
        next = next;
        bounded = bounded;
      })

module _ (v : Vocation) (p : Player) (i : InLevel p) where
  abbrev steps : ℕ
  steps = p.level - 1

  level_is : p.level ≡ suc steps
  level_is = omega (arith, i.at_least_one)

  gain-InLevel : (exp : ℕ) → p.experience + exp < curve max_level → InLevel (gain v exp p)
  unfolding gain
  gain-InLevel exp h =
      let p' : Player = record p { experience = (p.experience + exp) % 2 ^ 64 } in
      let (now, then_) = starts p steps level_is i.at_most in
      let more : p'.experience ≡ p.experience + exp = omega (arith, h, curve_small) in
      let s : Span = record {
        player = p';
        curr_level_exp = get_exp_for_level p.level;
        next_level_exp = get_exp_for_level (p.level + 1);
      } in
      if_either InLevel (exp == 0) {x = p} (λ e. i)
        (λ e.
          let end =
            grow-Grown (p'.experience + 1) v s steps
              (record {
                level = level_is;
                current = now;
                following = then_;
                reached = omega (arith, now, more, i.reached);
                bounded = omega (arith, more, h);
              })
              (omega arith) in
          with_percent-InLevel (grow (p'.experience + 1) v s)
            (Grown-InLevel (grow (p'.experience + 1) v s) end))

  -- A player whose level is the one that the experience reaches stays one after a gain, whatever the
  -- script makes of the points, if the experience with the gain is below that of level 600001.
  pub add_experience-InLevel :
      (on_gain_experience : ℕ → ℕ) (exp : ℕ)
      → p.experience + on_gain_experience exp < curve max_level
      → InLevel (add_experience v on_gain_experience exp p)
  unfolding add_experience
  add_experience-InLevel on_gain_experience exp h =
      let (now, then_) = starts p steps level_is i.at_most in
      if_either InLevel (leb (get_exp_for_level (p.level + 1)) (get_exp_for_level p.level))
        {x = record p { level_percent = 0 }}
        (λ e. absurd (ground (arith, e, now, then_, curve_step steps)))
        (λ e. gain-InLevel (on_gain_experience exp) h)

  lose-InLevel : (exp : ℕ) → exp < 2 ^ 62 → InLevel (lose v exp p)
  unfolding lose
  lose-InLevel exp h =
      let p' : Player = record p { experience = reduced p.experience exp } in
      let less : p'.experience ≤ p.experience = ground (arith, h, i.bounded, curve_small) in
      if_either InLevel (exp == 0) {x = p} (λ e. i)
        (λ e.
          let q = shrink p.level v p' in
          with_percent-InLevel
            (record {
              player = q;
              curr_level_exp = get_exp_for_level q.level;
              next_level_exp = get_exp_for_level (q.level + 1);
            })
            (shrink-InLevel p.level v p' steps level_is (omega arith) i.at_most
              (omega (arith, less, i.next)) (omega (arith, less, i.bounded))))

  -- A player whose level is the one that the experience reaches stays one after a loss, whatever the
  -- script makes of the points, if fewer than 2 ^ 62 points are lost.
  pub remove_experience-InLevel :
      (on_lose_experience : ℕ → ℕ) (exp : ℕ)
      → on_lose_experience exp < 2 ^ 62
      → InLevel (remove_experience v on_lose_experience exp p)
  unfolding remove_experience
  remove_experience-InLevel on_lose_experience exp h =
      if_either InLevel ((p.experience == 0) || (exp == 0)) {x = p} (λ e. i)
        (λ e. lose-InLevel (on_lose_experience exp) h)
