-- ===== src/Stream/Walking.antt =====
-- The walk of an open file to a cluster, and the span of adjacent clusters from there.
use mathlib.Core.Option
use unifat.Prelude.{
  ℕ, zero, suc, ◌+◌, ◌-◌, ◌≤◌, ◌≡◌, inl, inr, refl, sym, ap, ◌∙◌, subst, arith, Bool-cases, Option,
  some, none, Image, ltb, leb,
}
use unifat.Error.{ok, err, abort, FileResult, and_then}
use unifat.Codec.Time.{Calendar}
use unifat.Stream.Traits.{Backing}
use unifat.Stream.{StreamFile, walk, nearest, seek_to_cluster, on_world}
use unifat.Stream.Content.{Links, nth_cluster, nth_cluster-suc, Looks, Laws}

module _ (K : Calendar) (B : Backing K) (L : Laws K B) where
  open B use {World, Io}

  -- The stream's place in its chain is right.
  abbrev pub Placed : StreamFile K B → Links → Type 0
  Placed s g =
      (c : ℕ) → s.current_cluster ≡ some c → nth_cluster g s.first_cluster s.current_index ≡ some c

  -- The stream stands on a volume with the image `f` and the links `g`.
  pub record Open (s : StreamFile K B) (f : Image) (g : Links) : Type 0 where
    pub view : L.View s.world f g
    pub placed : Placed s g

  -- A method that changes no more than the state of the volume and the place in the chain.
  abbrev pub Moved : StreamFile K B → StreamFile K B → Type 0
  Moved s s' = s' ≡ record s {
    world = s'.world;
    current_cluster = s'.current_cluster;
    current_index = s'.current_index;
  }

  pub Moved-trans : (s s' s'' : StreamFile K B) → Moved s s' → Moved s' s'' → Moved s s''
  Moved-trans s s' s'' m m' =
      m'
      ∙ ap
          (λ (x : StreamFile K B). record x {
            world = s''.world;
            current_cluster = s''.current_cluster;
            current_index = s''.current_index;
          })
          m

  -- At the cluster of index `nth`, if the chain is that long.
  abbrev pub At : StreamFile K B → Links → ℕ → Type 0
  At s g nth =
      (c : ℕ)
      → s.current_cluster ≡ some c
      → (nth_cluster g s.first_cluster nth ≡ some c) × (s.current_index ≡ nth)

  abbrev pub WalkTo :
      StreamFile K B → Image → Links → ℕ → StreamFile K B × FileResult Io (Unit {0}) → Type 0
  WalkTo s f g nth (s', ok u) = Moved s s' × L.View s'.world f g × At s' g nth
  WalkTo s f g nth (s', err e) = Moved s s' × Open s' f g
  WalkTo s f g nth (s', abort) = ⊥

  WalkTo-step :
      (s s' : StreamFile K B) (f : Image) (g : Links) (nth : ℕ)
      → Moved s s'
      → (q : StreamFile K B × FileResult Io (Unit {0})) → WalkTo s' f g nth q
      → WalkTo s f g nth q
  WalkTo-step s s' f g nth m (t, ok u) (m', view, at) = (Moved-trans s s' t m m', view, at)
  WalkTo-step s s' f g nth m (t, err e) (m', open') = (Moved-trans s s' t m m', open')
  WalkTo-step s s' f g nth m (t, abort) none_left = none_left

  walk-WalkTo :
      (n : ℕ) (s : StreamFile K B) (f : Image) (g : Links) (cur idx : ℕ)
      → Open s f g
      → nth_cluster g s.first_cluster idx ≡ some cur
      → WalkTo s f g (idx + n) (walk K B n s cur idx)
  unfolding walk
  walk-WalkTo zero s f g cur idx o at = (
    refl,
    o.view,
    λ c e.
        let same : c ≡ cur = sym (Option.some-injective cur c e) in
        let stay : idx + 0 ≡ idx = omega arith in rw (stay, same) (at, refl),
  )
  walk-WalkTo (suc n) s f g cur idx o at =
      go (B.next cur s.world) (L.next-link s.world f g cur o.view)
        (λ s' c o' at'. walk-WalkTo n s' f g c (idx + 1) o' at')
    where
      go :
          (q : World × FileResult Io (Option ℕ))
          → Looks K B (λ w'. L.View w' f g) (λ l. l ≡ g cur) q
          → ((s' : StreamFile K B) (c : ℕ)
              → Open s' f g
              → nth_cluster g s'.first_cluster (idx + 1) ≡ some c
              → WalkTo s' f g (idx + 1 + n) (walk K B n s' c (idx + 1)))
          → WalkTo s f g (idx + suc n) (
              and_then (on_world K B s q) (λ s' l. elim l [
                | some c ↦ walk K B n s' c (idx + 1)
                | none ↦ (record s' { current_cluster = none }, ok tt)
              ]))
      go (w, ok (some c)) (view, link) rest =
          let s' = record s { world = w } in
          let total : idx + suc n ≡ idx + 1 + n = omega arith in
          rw total (
            WalkTo-step s s' f g (idx + 1 + n) refl (walk K B n s' c (idx + 1)) (
              rest s' c (record { view = view; placed = o.placed })
                (nth_cluster-suc g s.first_cluster idx at (sym link))))
      go (w, ok none) (view, link) rest = (refl, view, λ c e. absurd (Option.none-ne-some c e))
      go (w, err e) view rest = (refl, record { view = view; placed = o.placed })
      go (w, abort) none_left rest = none_left

  -- Seeking reaches the cluster of that index, or the end of the chain.
  pub seek_to_cluster-WalkTo :
      (s : StreamFile K B) (f : Image) (g : Links) (nth : ℕ)
      → Open s f g
      → WalkTo s f g nth (seek_to_cluster K B s nth)
  unfolding seek_to_cluster
  seek_to_cluster-WalkTo s f g nth o = elim (Bool-cases (ltb s.first_cluster 2)) [
    | inl empty ↦ rw empty (refl, o.view, λ c e. absurd (Option.none-ne-some c e))
    | inr full ↦ rw full (go s.current_cluster refl)
  ]
    where
      from :
          (cur idx : ℕ)
          → idx ≤ nth
          → nth_cluster g s.first_cluster idx ≡ some cur
          → WalkTo s f g nth (walk K B (nth - idx) s cur idx)
      from cur idx le at =
          subst (λ k. WalkTo s f g k (walk K B (nth - idx) s cur idx)) {x = idx + (nth - idx)}
            {y = nth} (omega arith) (walk-WalkTo (nth - idx) s f g cur idx o at)

      go :
          (l : Option ℕ)
          → s.current_cluster ≡ l
          → WalkTo s f g nth (
              let (cur, idx) = nearest K B l s.current_index s.first_cluster nth in
              walk K B (nth - idx) s cur idx)
      go none e = from s.first_cluster 0 (omega arith) (unfold nth_cluster in refl)
      go (some c) e = elim (Bool-cases (leb s.current_index nth)) [
        | inl near ↦ rw near (from c s.current_index (ground arith) (o.placed c e))
        | inr past ↦ rw past (from s.first_cluster 0 (omega arith) (unfold nth_cluster in refl))
      ]
