-- ===== src/Containers/HazardStack/Invariant.antt =====
-- What the threads of lockfree_stack_hazard_pointer.hpp rely on.
use playground_cpp.Common.{
  Distinct, at_each, ℕ, length, ◌<◌, ◌≡◌, ◌≢◌, refl, ◌∙◌, subst, inl, inr, ◌⊎◌, Option, none, some,
  List, [], ◌∷◌, update, In,
}
use playground_cpp.Containers.SharedStack.{Node, Status, unborn, owned, stacked, removed}
use playground_cpp.Containers.SharedStack.Chain.{Represents}
use playground_cpp.Containers.HazardStack.{
  max_hazard_pointers, Pc, idle, threw, made, pushing, announcing, reloading, following, exchanging,
  dropping, taking, scanning, collecting, sweeping, returned, State,
}

module _ {ℓ} {T : Type ℓ} where
  -- The thread has checked its hazard pointer for the node and uses it.
  abbrev pub Uses : ℕ → Pc T → Type 0
  Uses a (following b) = b ≡ a
  Uses a (exchanging b n) = b ≡ a
  Uses a idle = ⊥
  Uses a threw = ⊥
  Uses a (made v p) = ⊥
  Uses a (pushing v p) = ⊥
  Uses a (announcing o) = ⊥
  Uses a (reloading o) = ⊥
  Uses a (dropping o) = ⊥
  Uses a (taking b) = ⊥
  Uses a (scanning b i rest own res) = ⊥
  Uses a (collecting res) = ⊥
  Uses a (sweeping xs res) = ⊥
  Uses a (returned res) = ⊥

  -- The removed nodes that a thread has in its hands.
  abbrev pub hand : Pc T → List ℕ
  hand (dropping none) = []
  hand (dropping (some a)) = a ∷ []
  hand (taking a) = a ∷ []
  hand (scanning a i rest own res) = a ∷ rest
  hand (sweeping xs res) = xs
  hand idle = []
  hand threw = []
  hand (made v p) = []
  hand (pushing v p) = []
  hand (announcing o) = []
  hand (reloading o) = []
  hand (following a) = []
  hand (exchanging a n) = []
  hand (collecting res) = []
  hand (returned res) = []

  -- What a thread knows for itself; the last line is about the thread with number `t`.
  abbrev pub Knows : ℕ → (ℕ → Status) → (ℕ → Node T) → Option ℕ → Pc T → Type ℓ
  Knows t status nodes hazard (made v p) = (status p ≡ owned t) × ((nodes p).data_ ≡ some v)
  Knows t status nodes hazard (pushing v p) = (status p ≡ owned t) × ((nodes p).data_ ≡ some v)
  Knows t status nodes hazard (announcing o) = (t < max_hazard_pointers) × Unit
  Knows t status nodes hazard (reloading o) = ((t < max_hazard_pointers) × (hazard ≡ o)) × Unit
  Knows t status nodes hazard (following a) =
      ((t < max_hazard_pointers)
        × ((hazard ≡ some a) × ((status a ≡ removed) ⊎ ((k : ℕ) × (status a ≡ stacked k)))))
      × Unit
  Knows t status nodes hazard (exchanging a n) =
      ((t < max_hazard_pointers)
        × ((hazard ≡ some a)
            × ((status a ≡ removed)
                ⊎ ((k : ℕ) × ((status a ≡ stacked k) × ((nodes a).next_ ≡ n))))))
      × Unit
  Knows t status nodes hazard idle = Unit
  Knows t status nodes hazard threw = Unit
  Knows t status nodes hazard (dropping o) = Unit
  Knows t status nodes hazard (taking b) = Unit
  Knows t status nodes hazard (scanning b i rest own res) = Unit
  Knows t status nodes hazard (collecting res) = Unit
  Knows t status nodes hazard (sweeping xs res) = Unit
  Knows t status nodes hazard (returned res) = Unit

  -- The node that a thread scans the hazard pointers for, and how many it has looked at.
  abbrev pub Scans : ℕ → ℕ → Pc T → Type 0
  Scans a i (scanning b j rest own res) = (b ≡ a) × (i < j)
  Scans a i idle = ⊥
  Scans a i threw = ⊥
  Scans a i (made v p) = ⊥
  Scans a i (pushing v p) = ⊥
  Scans a i (announcing o) = ⊥
  Scans a i (reloading o) = ⊥
  Scans a i (following b) = ⊥
  Scans a i (exchanging b n) = ⊥
  Scans a i (dropping o) = ⊥
  Scans a i (taking b) = ⊥
  Scans a i (collecting res) = ⊥
  Scans a i (sweeping xs res) = ⊥
  Scans a i (returned res) = ⊥

  pub record Inv (s : State T) (items : List T) : Type ℓ where
    pub represents : Represents s.status s.nodes s.head_ items
    pub depth : s.depth ≡ length items
    pub knows : (t : ℕ) → Knows t s.status s.nodes (s.hazards t) (s.pcs t)
    pub held : (t a : ℕ) → In a (hand (s.pcs t)) → (s.status a ≡ removed) × (s.holder a ≡ some t)
    pub once : (t : ℕ) → Distinct (hand (s.pcs t))
    pub listed : (a : ℕ) → In a s.reclaim → (s.status a ≡ removed) × (s.holder a ≡ none)
    pub listed_once : Distinct s.reclaim
    -- A thread that uses a node is not among those whose hazard pointer was looked at.
    pub unseen : (t u a : ℕ) → Scans a u (s.pcs t) → Uses a (s.pcs u) → ⊥

  -- What a move of thread `t` may do to an address, by its status before; `unused` says that
  -- no thread uses it.
  abbrev pub Later : ℕ → Type 0 → Status → Node T → Status → Node T → Type ℓ
  Later t unused unborn nd st' nd' = Unit
  Later t unused (owned v) nd st' nd' = t ≢ v → (st' ≡ owned v) × (nd'.data_ ≡ nd.data_)
  Later t unused (stacked k) nd st' nd' =
      ((st' ≡ removed) ⊎ ((st' ≡ stacked k) × (nd'.next_ ≡ nd.next_))) × Unit
  Later t unused removed nd st' nd' = ((st' ≡ removed) ⊎ unused) × Unit

  pub Later-refl :
      (t : ℕ) (unused : Type 0) (st : Status) (nd : Node T) → Later t unused st nd st nd
  Later-refl t unused unborn nd = tt
  Later-refl t unused (owned v) nd = λ e. (refl, refl)
  Later-refl t unused (stacked k) nd = (inr (refl, refl), tt)
  Later-refl t unused removed nd = (inl refl, tt)

  Knows-Later :
      (t u : ℕ) (status status' : ℕ → Status) (nodes nodes' : ℕ → Node T) (hazard : Option ℕ)
      (pc : Pc T)
      → t ≢ u
      → ((a : ℕ) → Later t (Uses a pc → ⊥) (status a) (nodes a) (status' a) (nodes' a))
      → Knows u status nodes hazard pc
      → Knows u status' nodes' hazard pc
  Knows-Later t u status status' nodes nodes' hazard (made v p) ne later (o, d) =
      let (o', d') =
        subst (λ x. Later t (⊥ → ⊥) x (nodes p) (status' p) (nodes' p)) o (later p) ne in
      (o', d' ∙ d)
  Knows-Later t u status status' nodes nodes' hazard (pushing v p) ne later (o, d) =
      let (o', d') =
        subst (λ x. Later t (⊥ → ⊥) x (nodes p) (status' p) (nodes' p)) o (later p) ne in
      (o', d' ∙ d)
  Knows-Later t u status status' nodes nodes' hazard (announcing o) ne later h = h
  Knows-Later t u status status' nodes nodes' hazard (reloading o) ne later h = h
  Knows-Later t u status status' nodes nodes' hazard (following a) ne later ((lt, (hz, inl r)), _) =
      elim (subst (λ x. Later t (a ≡ a → ⊥) x (nodes a) (status' a) (nodes' a)) r (later a)).0 [
        | inl still ↦ ((lt, (hz, inl still)), tt)
        | inr unused ↦ absurd (unused refl)
      ]
  Knows-Later t u status status' nodes nodes' hazard (following a) ne later
        ((lt, (hz, inr (k, r))), _) =
      elim (subst (λ x. Later t (a ≡ a → ⊥) x (nodes a) (status' a) (nodes' a)) r (later a)).0 [
        | inl gone ↦ ((lt, (hz, inl gone)), tt)
        | inr (there, _) ↦ ((lt, (hz, inr (k, there))), tt)
      ]
  Knows-Later t u status status' nodes nodes' hazard (exchanging a n) ne later
        ((lt, (hz, inl r)), _) =
      elim (subst (λ x. Later t (a ≡ a → ⊥) x (nodes a) (status' a) (nodes' a)) r (later a)).0 [
        | inl still ↦ ((lt, (hz, inl still)), tt)
        | inr unused ↦ absurd (unused refl)
      ]
  Knows-Later t u status status' nodes nodes' hazard (exchanging a n) ne later
        ((lt, (hz, inr (k, (r, e)))), _) =
      elim (subst (λ x. Later t (a ≡ a → ⊥) x (nodes a) (status' a) (nodes' a)) r (later a)).0 [
        | inl gone ↦ ((lt, (hz, inl gone)), tt)
        | inr (there, same) ↦ ((lt, (hz, inr (k, (there, same ∙ e)))), tt)
      ]
  Knows-Later t u status status' nodes nodes' hazard idle ne later h = tt
  Knows-Later t u status status' nodes nodes' hazard threw ne later h = tt
  Knows-Later t u status status' nodes nodes' hazard (dropping o) ne later h = tt
  Knows-Later t u status status' nodes nodes' hazard (taking b) ne later h = tt
  Knows-Later t u status status' nodes nodes' hazard (scanning b i rest own res) ne later h = tt
  Knows-Later t u status status' nodes nodes' hazard (collecting res) ne later h = tt
  Knows-Later t u status status' nodes nodes' hazard (sweeping xs res) ne later h = tt
  Knows-Later t u status status' nodes nodes' hazard (returned res) ne later h = tt

  -- A move of thread `t` to `pc`, from a state to the other fields of another.
  pub record Moves (t : ℕ) (pc : Pc T) (s s' : State T) (items : List T) : Type ℓ where
    pub represents : Represents s'.status s'.nodes s'.head_ items
    pub depth : s'.depth ≡ length items
    pub hazards : (u : ℕ) → t ≢ u → s'.hazards u ≡ s.hazards u
    pub later :
        (u a : ℕ)
        → t ≢ u
        → Later t (Uses a (s.pcs u) → ⊥) (s.status a) (s.nodes a) (s'.status a) (s'.nodes a)
    pub knows : Knows t s'.status s'.nodes (s'.hazards t) pc
    pub kept :
        (u a : ℕ)
        → t ≢ u
        → s.status a ≡ removed
        → s.holder a ≡ some u
        → (s'.status a ≡ removed) × (s'.holder a ≡ some u)
    pub held : (a : ℕ) → In a (hand pc) → (s'.status a ≡ removed) × (s'.holder a ≡ some t)
    pub once : Distinct (hand pc)
    pub listed : (a : ℕ) → In a s'.reclaim → (s'.status a ≡ removed) × (s'.holder a ≡ none)
    pub listed_once : Distinct s'.reclaim
    pub scanned : (u a : ℕ) → t ≢ u → Scans a u pc → Uses a (s.pcs u) → ⊥
    pub used : (v a : ℕ) → t ≢ v → Uses a pc → Scans a t (s.pcs v) → ⊥

  -- No thread both scans and uses.
  Scans-Uses : (a u : ℕ) (pc : Pc T) → Scans a u pc → Uses a pc → ⊥
  Scans-Uses a u (scanning b j rest own res) h k = k
  Scans-Uses a u (following b) h k = h
  Scans-Uses a u (exchanging b n) h k = h
  Scans-Uses a u idle h k = h
  Scans-Uses a u threw h k = h
  Scans-Uses a u (made v p) h k = h
  Scans-Uses a u (pushing v p) h k = h
  Scans-Uses a u (announcing o) h k = h
  Scans-Uses a u (reloading o) h k = h
  Scans-Uses a u (dropping o) h k = h
  Scans-Uses a u (taking b) h k = h
  Scans-Uses a u (collecting res) h k = h
  Scans-Uses a u (sweeping xs res) h k = h
  Scans-Uses a u (returned res) h k = h

  pub Moves-Inv :
      (t : ℕ) (pc : Pc T) (s s' : State T) (xs ys : List T)
      → Inv s xs
      → Moves t pc s s' ys
      → Inv (record s' { pcs = update s.pcs t pc }) ys
  Moves-Inv t pc s s' xs ys inv m = record {
    represents = m.represents;
    depth = m.depth;
    knows =
        at_each (λ u c. Knows u s'.status s'.nodes (s'.hazards u) c) t s.pcs pc m.knows
          (λ u ne. rw (m.hazards u ne) (
            Knows-Later t u s.status s'.status s.nodes s'.nodes (s.hazards u) (s.pcs u) ne
              (λ a. m.later u a ne) (inv.knows u)));
    held =
        at_each (λ u c. (a : ℕ) → In a (hand c) → (s'.status a ≡ removed) × (s'.holder a ≡ some u))
          t s.pcs pc m.held (λ u ne a i. let (r, o) = inv.held u a i in m.kept u a ne r o);
    once = at_each (λ u c. Distinct (hand c)) t s.pcs pc m.once (λ u ne. inv.once u);
    listed = m.listed;
    listed_once = m.listed_once;
    unseen = λ v u a.
        at_each (λ v c. Scans a u c → Uses a (update s.pcs t pc u) → ⊥) t s.pcs pc
          (at_each (λ u c. Scans a u pc → Uses a c → ⊥) t s.pcs pc (Scans-Uses a t pc)
            (λ u ne. m.scanned u a ne) u)
          (λ v ne.
            at_each (λ u c. Scans a u (s.pcs v) → Uses a c → ⊥) t s.pcs pc
              (λ sc us. m.used v a ne us sc) (λ u ne. inv.unseen v u a) u)
          v;
  }
