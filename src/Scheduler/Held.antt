-- ===== src/Scheduler/Held.antt =====
-- The identifiers that engine/src/scheduler.cpp keeps, and what each operation does to them.
use mathlib.Core.Path.{subst}
use otx_teste.Common.{
  ℕ, ◌+◌, ◌<◌, ◌≡◌, refl, sym, true, false, not, ◌&&◌, ◌||◌, List, [], ◌∷◌, ◌==◌, arith, inl, inr,
  Bool-cases,
}
use otx_teste.Common.Sets.{mem, erase, Distinct, mem-erase, erase-Distinct}
use otx_teste.Scheduler.{insert_id}

-- The identifiers of the queue, those that are active, and those of what was handed over: an
-- identifier is of one entry at most and not above the last one given out; only entries of the
-- queue are active, each once.
pub record Held (last : ℕ) (queue active sent : List ℕ) : Type 0 where
  pub apart : (id : ℕ) → mem id queue && mem id sent ≡ false
  pub queue_once : Distinct queue
  pub sent_once : Distinct sent
  pub given : (id : ℕ) → last < id → mem id queue || mem id sent ≡ false
  pub queued : (id : ℕ) → mem id active && not (mem id queue) ≡ false
  pub active_once : Distinct active

module _ {last : ℕ} {queue active sent : List ℕ} (s : Held last queue active sent) where
  pub Held-add : Held (last + 1) ((last + 1) ∷ queue) (insert_id (last + 1) active) sent
  unfolding mem
  Held-add =
      let new = s.given (last + 1) (omega arith) in
      let idle = s.queued (last + 1) in
      let fresh : mem (last + 1) active ≡ false = ground arith in
      simp fresh (record {
        apart = λ id. elim (Bool-cases (id == last + 1)) [
          | inl same ↦ let e : id ≡ last + 1 = ground arith in rw e (ground arith)
          | inr other ↦ ground (arith, s.apart id)
        ];
        queue_once = (ground arith, s.queue_once);
        sent_once = s.sent_once;
        given = λ id h. ground (arith, s.given id (omega arith));
        queued = λ id. ground (arith, s.queued id);
        active_once = (fresh, s.active_once);
      })

  pub Held-stop : (id : ℕ) → Held last queue (erase id active) sent
  Held-stop id = record {
    apart = s.apart;
    queue_once = s.queue_once;
    sent_once = s.sent_once;
    given = s.given;
    queued = λ g. ground (arith, s.queued g, mem-erase id g active s.active_once);
    active_once = erase-Distinct id active s.active_once;
  }

  pub Held-close : Held last [] [] sent
  unfolding mem
  Held-close = record {
    apart = λ id. refl;
    queue_once = tt;
    sent_once = s.sent_once;
    given = λ id h. ground (arith, s.given id h);
    queued = λ id. refl;
    active_once = tt;
  }

  module _ (id : ℕ) (rest : List ℕ) (taken : (g : ℕ) → mem g rest ≡ (not (g == id) && mem g queue))
      (once : Distinct rest) where
    pub Held-drop : mem id active ≡ false → Held last rest active sent
    Held-drop idle = record {
      apart = λ g. ground (arith, s.apart g, taken g);
      queue_once = once;
      sent_once = s.sent_once;
      given = λ g h. ground (arith, s.given g h, taken g);
      queued = λ g. elim (Bool-cases (g == id)) [
        | inl same ↦ let e : g ≡ id = ground arith in rw e (ground arith)
        | inr other ↦ ground (arith, s.queued g, taken g)
      ];
      active_once = s.active_once;
    }

    pub Held-send : mem id queue ≡ true → Held last rest (erase id active) (id ∷ sent)
    unfolding mem
    Held-send here = record {
      apart = λ g. ground (arith, s.apart g, taken g);
      queue_once = once;
      sent_once = (ground (arith, s.apart id), s.sent_once);
      given = λ g h. elim (Bool-cases (g == id)) [
        | inl same ↦
            let e : g ≡ id = ground arith in
            absurd (
              let here' = subst (λ k. mem k queue ≡ true) (sym e) here in
              ground (arith, s.given g h))
        | inr other ↦ ground (arith, s.given g h, taken g)
      ];
      queued = λ g. ground (arith, s.queued g, taken g, mem-erase id g active s.active_once);
      active_once = erase-Distinct id active s.active_once;
    }
