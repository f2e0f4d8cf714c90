-- ===== src/ThreadOwners/Invariant.antt =====
-- What every call of joining_thread.hpp, scoped_thread.hpp and threads_guard.hpp leaves in order.
use playground_cpp.Common.{
  ℕ, ◌≡◌, ◌≢◌, refl, sym, subst, true, false, Option, none, some, update, update_self, update-ne,
  update-same, at_each, ◌==◌, Option-cases, inl, inr,
}
use playground_cpp.ThreadOwners.{
  Fate, unstarted, running, joined, Kind, absent, plain, joining, scoped, World, finish, join,
  join_if_joinable, rank, caught,
}
use playground_cpp.ThreadOwners.Owned.{Owned, Owned-finish}

-- What an object of a kind may stand for.
abbrev pub Fits : Kind → Option ℕ → Type 0
Fits absent o = o ≡ none
Fits plain o = Unit
Fits joining o = Unit
Fits scoped o = o ≢ none

pub record Inv (w : World) : Type 0 where
  pub owned : Owned w.objects w.fates w.started
  pub fits : (i : ℕ) → Fits (w.kinds i) (w.objects i)
  pub going : w.terminated ≡ false

pub plain-Fits : (k : Kind) → (rank k == rank plain) ≡ true → (o : Option ℕ) → Fits k o
plain-Fits absent e o = absurd (cc e)
plain-Fits plain e o = tt
plain-Fits joining e o = tt
plain-Fits scoped e o = absurd (cc e)

pub joining-Fits : (k : Kind) → (rank k == rank joining) ≡ true → (o : Option ℕ) → Fits k o
joining-Fits absent e o = absurd (cc e)
joining-Fits plain e o = tt
joining-Fits joining e o = tt
joining-Fits scoped e o = absurd (cc e)

pub absent-Fits : (k : Kind) (o : Option ℕ) → (rank k == rank absent) ≡ true → Fits k o → o ≡ none
absent-Fits absent o e h = h
absent-Fits plain o e h = absurd (cc e)
absent-Fits joining o e h = absurd (cc e)
absent-Fits scoped o e h = absurd (cc e)

pub scoped-Fits : (k : Kind) (o : Option ℕ) → (rank k == rank scoped) ≡ true → Fits k o → o ≢ none
scoped-Fits absent o e h = absurd (cc e)
scoped-Fits plain o e h = absurd (cc e)
scoped-Fits joining o e h = absurd (cc e)
scoped-Fits scoped o e h = h

pub Fits-update :
    (kinds : ℕ → Kind) (objects : ℕ → Option ℕ) (i : ℕ) (k : Kind) (o : Option ℕ)
    → Fits k o
    → ((j : ℕ) → Fits (kinds j) (objects j))
    → (j : ℕ) → Fits (update kinds i k j) (update objects i o j)
Fits-update kinds objects i k o h fits =
    at_each (λ j c. Fits c (update objects i o j)) i kinds k
      (subst (Fits k) (sym (update_self objects i o)) h)
      (λ j ne. subst (Fits (kinds j)) (sym (update-ne objects i o j ne)) (fits j))

-- The kind of an object may be changed when it fits what the object stands for.
pub Fits-kind :
    (kinds : ℕ → Kind) (objects : ℕ → Option ℕ) (i : ℕ) (k : Kind)
    → Fits k (objects i)
    → ((j : ℕ) → Fits (kinds j) (objects j))
    → (j : ℕ) → Fits (update kinds i k j) (objects j)
Fits-kind kinds objects i k h fits =
    at_each (λ j c. Fits c (objects j)) i kinds k h (λ j ne. fits j)

-- The object stands for another thread.
pub Fits-object :
    (kinds : ℕ → Kind) (objects : ℕ → Option ℕ) (i : ℕ) (o : Option ℕ)
    → Fits (kinds i) o
    → ((j : ℕ) → Fits (kinds j) (objects j))
    → (j : ℕ) → Fits (kinds j) (update objects i o j)
Fits-object kinds objects i o h fits =
    at_each (λ j c. Fits (kinds j) c) i objects o h (λ j ne. fits j)

-- join and detach of an object that may stand for nothing.
pub finish-Inv :
    (fate : Fate) (i : ℕ) (o : Option ℕ) (w : World)
    → w.objects i ≡ o
    → fate ≢ running
    → fate ≢ unstarted
    → Fits (w.kinds i) none
    → Inv w
    → Inv (caught (finish fate i o w) w)
finish-Inv fate i none w e over begun fit inv = inv
finish-Inv fate i (some id) w e over begun fit inv = record {
  owned = Owned-finish w.objects w.fates w.started inv.owned i id fate e over begun;
  fits = Fits-object w.kinds w.objects i none fit inv.fits;
  going = inv.going;
}

-- The object of the call stands for nothing afterwards, and the others for what they stood for.
pub join_if_joinable-Inv :
    (i : ℕ) (w : World)
    → Fits (w.kinds i) none
    → Inv w
    → let w' = join_if_joinable i w in
      Inv w' × ((w'.objects ≡ update w.objects i none) × (w'.kinds ≡ w.kinds))
unfolding join_if_joinable join
join_if_joinable-Inv i w fit inv = elim (Option-cases (w.objects i)) [
  | inl e ↦ rw (e) (inv, (sym (update-same w.objects i none e), refl))
  | inr (id, e) ↦
      rw (e) (finish-Inv joined i (some id) w e (λ e. cc e) (λ e. cc e) fit inv, (refl, refl))
]
