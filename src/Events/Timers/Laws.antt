-- ===== src/Events/Timers/Laws.antt =====
-- What pumpTimers of main.cpp does, and ids of timers.
use playground_cpp.Common.{
  ℕ, ◌+◌, ◌*◌, ◌≤◌, ◌≡◌, refl, sym, ◌∙◌, ap, leb, inl, inr, Bool, true, false, not, List, [], ◌∷◌,
  ◌++◌, map, keep, length, ◌==◌, if◌then◌else◌, arith, Bool-cases,
}
use playground_cpp.Events.Timers.{
  TimerInfo, TimerManager, Pumped, ns_per_ms, default_wait, erase, start_timer, kill_timer, is_due,
  timer_event, rearm, shorten, pump_from, pump_timers,
}

module _ {ℓ} {R : Type ℓ} where
  -- No timer of the list is due before the time.
  abbrev pub NoneBefore : ℕ → List (TimerInfo R) → Type 0
  NoneBefore time [] = Unit
  NoneBefore time (t ∷ ts) = (time ≤ t.next_fire) × NoneBefore time ts

  record Pumps (now wait : ℕ) (fired : Bool) (ts : List (TimerInfo R)) (p : Pumped R) : Type ℓ where
    waits : p.wait_ms ≤ wait
    none_before : NoneBefore (now + p.wait_ms * ns_per_ms) p.timers
    posts : p.posts ≡ map timer_event (keep (is_due now) ts)
    fires : p.fired ≡ (if length p.posts == 0 then fired else true)
    rearms :
        p.timers
        ≡ map
            (λ t.
              if leb t.next_fire now
              then record t { next_fire = now + t.interval_ms * ns_per_ms }
              else t)
            ts

  shorten_lem :
      (now wait : ℕ) (t : TimerInfo R)
      → now ≤ t.next_fire
      → (shorten now wait t ≤ wait) × (now + shorten now wait t * ns_per_ms ≤ t.next_fire)
  unfolding shorten
  shorten_lem now wait t le = ground arith

  rearm_lem :
      (now : ℕ) (t : TimerInfo R)
      → (now ≤ (rearm now t).next_fire)
        × (rearm now t ≡ (
            if leb t.next_fire now
            then record t { next_fire = now + t.interval_ms * ns_per_ms }
            else t))
  unfolding rearm
  rearm_lem now t = (ground arith, refl)

  pump_from-Pumps :
      (now wait : ℕ) (fired : Bool) (ts : List (TimerInfo R))
      → Pumps now wait fired ts (pump_from now wait fired ts)
  unfolding pump_from
  pump_from-Pumps now wait fired [] = record {
    waits = omega arith;
    none_before = tt;
    posts = refl;
    fires = ground arith;
    rearms = refl;
  }
  pump_from-Pumps now wait fired (t ∷ ts) =
      let (later, same) = rearm_lem now t in
      let (less, soon) = shorten_lem now wait (rearm now t) later in
      let ih =
        pump_from-Pumps now (shorten now wait (rearm now t)) (if is_due now t then true else fired)
          ts in
      let shorter = ih.waits in
      let same_timers = ih.rearms in
      let posts = ih.posts in
      let fires = ih.fires in
      record {
        waits = omega arith;
        none_before = (omega arith, ih.none_before);
        posts = elim (Bool-cases (is_due now t)) [
          | inl due ↦ ground arith
          | inr not_due ↦ ground arith
        ];
        fires = elim (Bool-cases (is_due now t)) [
          | inl due ↦ ground arith
          | inr not_due ↦ ground arith
        ];
        rearms = rw (same, same_timers) refl;
      }

  pump_timers-Pumps :
      (now : ℕ) (m : TimerManager R) → Pumps now default_wait false m.timers (pump_timers now m)
  unfolding pump_timers
  pump_timers-Pumps now m = pump_list m.timers
    where
      pump_list :
          (ts : List (TimerInfo R))
          → Pumps now default_wait false ts (
              if length ts == 0
              then record { wait_ms = default_wait; fired = false; timers = ts; posts = [] }
              else pump_from now default_wait false ts)
      pump_list [] = record {
        waits = omega arith;
        none_before = tt;
        posts = refl;
        fires = refl;
        rearms = refl;
      }
      pump_list (t ∷ ts) =
          let nonempty : (length (t ∷ ts) == 0) ≡ false = ground arith in
          rw (nonempty) (pump_from-Pumps now default_wait false (t ∷ ts))

  -- The wait of pumpTimers is at most 50 ms and ends before any timer is due; it posts an
  -- event for each timer that is due, to its target, in the order of the table, says whether
  -- there was one, sets the next time of each of these one interval from now, and leaves all
  -- else of the timers as it was.
  pub pump_timers_lem :
      (now : ℕ) (m : TimerManager R)
      → let p = pump_timers now m in
        (p.wait_ms ≤ 50)
        × (NoneBefore (now + p.wait_ms * ns_per_ms) p.timers
            × ((p.posts ≡ map timer_event (keep (is_due now) m.timers))
                × ((p.fired ≡ not (length p.posts == 0))
                    × (p.timers
                        ≡ map
                            (λ t.
                              if leb t.next_fire now
                              then record t { next_fire = now + t.interval_ms * ns_per_ms }
                              else t)
                            m.timers))))
  pump_timers_lem now m =
      let p = pump_timers-Pumps now m in
      let fires = p.fires in (p.waits, (p.none_before, (p.posts, (ground arith, p.rearms))))

  abbrev pub IdsUpTo : ℕ → List (TimerInfo R) → Type 0
  IdsUpTo n [] = Unit
  IdsUpTo n (t ∷ ts) = (t.id ≤ n) × IdsUpTo n ts

  erase_fresh : (n : ℕ) (ts : List (TimerInfo R)) → IdsUpTo n ts → erase (n + 1) ts ≡ ts
  erase_fresh n [] h = refl
  erase_fresh n (t ∷ ts) h = let ih = erase_fresh n ts h.1 in let le = h.0 in ground arith

  erase_append :
      (n : ℕ) (ts us : List (TimerInfo R)) → erase n (ts ++ us) ≡ erase n ts ++ erase n us
  erase_append n [] us = refl
  erase_append n (t ∷ ts) us = let ih = erase_append n ts us in ground arith

  erase_first :
      (n : ℕ) (t : TimerInfo R) (ts : List (TimerInfo R)) → t.id ≡ n → erase n (t ∷ ts) ≡ erase n ts
  erase_first n t ts e = ground arith

  -- killTimer of the id that startTimer gives takes out that timer and no other, wherever
  -- the hash map has put it, and in whatever order it has the others then, when no timer has
  -- an id that startTimer has not given yet: with `before` and `behind` the other timers in
  -- that order, it leaves these, which are the table as it was if it has kept its order. The
  -- id itself is not given again.
  pub kill_timer-start_timer :
      (place : TimerInfo R → List (TimerInfo R) → List (TimerInfo R)) (target : R)
      (interval_ms now : ℕ) (m : TimerManager R) (before behind : List (TimerInfo R))
      → IdsUpTo m.last_id m.timers
      → IdsUpTo m.last_id (before ++ behind)
      → place
          (record {
            id = m.last_id + 1;
            interval_ms = interval_ms;
            next_fire = now + interval_ms * ns_per_ms;
            target = target;
          })
          m.timers
        ≡ before
          ++ record {
            id = m.last_id + 1;
            interval_ms = interval_ms;
            next_fire = now + interval_ms * ns_per_ms;
            target = target;
          }
            ∷ behind
      → let started = start_timer place target interval_ms now m in
        kill_timer started.0 started.1 ≡ record m { timers = before ++ behind; last_id = started.0 }
  unfolding start_timer kill_timer
  kill_timer-start_timer place target interval_ms now m before behind low others put =
      let id = m.last_id + 1 in
      let new : TimerInfo R = record {
        id = id;
        interval_ms = interval_ms;
        next_fire = now + interval_ms * ns_per_ms;
        target = target;
      } in
      let taken : erase id (place new (erase id m.timers)) ≡ before ++ behind =
        ap (λ ts. erase id (place new ts)) (erase_fresh m.last_id m.timers low)
        ∙ ap (erase id) put
        ∙ erase_append id before (new ∷ behind)
        ∙ ap (λ ts. erase id before ++ ts) (erase_first id new behind refl)
        ∙ sym (erase_append id before behind)
        ∙ erase_fresh m.last_id (before ++ behind) others in
      ap (λ ts. record m { timers = ts; last_id = id }) taken
