-- ===== src/Tests/Growth.antt =====
-- Runs of gains and losses of experience.
use otx_teste.Common.{◌*◌, ◌^◌, ◌≡◌, refl, arith}
use otx_teste.Experience.{
  Player, Vocation, get_exp_for_level, get_percent_level, level_up, level_down, grow, with_percent,
  gain, add_experience, shrink, lose, remove_experience,
}
use otx_teste.Experience.Curve.{curve_large}
use otx_teste.Experience.Levels.{InLevel, add_experience-InLevel, remove_experience-InLevel}
use otx_teste.Experience.Exchange.{remove_experience-add_experience}

abbrev knight : Vocation
knight = record { hp_gain = 15; mana_gain = 5; cap_gain = 2500 }

-- Level 8 takes 4200 points, level 9 takes 6400.
abbrev hero : Player
hero = record {
  level = 8;
  experience = 5000;
  level_percent = 38;
  health_max = 185;
  mana_max = 90;
  capacity = 47000;
}

get_exp_for_level_test : get_exp_for_level 9 ≡ 6400
unfolding get_exp_for_level
get_exp_for_level_test = refl

add_experience_test : add_experience knight (λ e. e) 5000 hero ≡ record {
  level = 10;
  experience = 10000;
  level_percent = 18;
  health_max = 215;
  mana_max = 100;
  capacity = 52000;
}
unfolding add_experience gain grow level_up with_percent get_percent_level get_exp_for_level
add_experience_test = refl

remove_experience_test : remove_experience knight (λ e. e) 4000 hero ≡ record {
  level = 5;
  experience = 1000;
  level_percent = 28;
  health_max = 140;
  mana_max = 75;
  capacity = 39500;
}
unfolding remove_experience lose shrink level_down with_percent get_percent_level get_exp_for_level
remove_experience_test = refl

hero-InLevel : InLevel hero
unfolding get_exp_for_level
hero-InLevel = record {
  at_least_one = omega arith;
  at_most = omega arith;
  reached = omega arith;
  next = omega arith;
  bounded = omega (arith, curve_large);
}

add_experience-InLevel_example : InLevel (add_experience knight (λ e. 2 * e) 5000 hero)
add_experience-InLevel_example =
    add_experience-InLevel knight hero hero-InLevel (λ e. 2 * e) 5000 (omega (arith, curve_large))

remove_experience-InLevel_example : InLevel (remove_experience knight (λ e. 2 * e) (2 ^ 60) hero)
remove_experience-InLevel_example =
    remove_experience-InLevel knight hero hero-InLevel (λ e. 2 * e) (2 ^ 60) (omega arith)

remove_experience-add_experience_example :
    let q = remove_experience knight (λ e. e) 5000 (add_experience knight (λ e. e) 5000 hero) in
    (q.level ≡ 8) × (q.experience ≡ 5000)
remove_experience-add_experience_example =
    remove_experience-add_experience knight hero 5000 hero-InLevel (omega (arith, curve_large))
