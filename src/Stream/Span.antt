-- ===== src/Stream/Span.antt =====
-- The span of adjacent clusters that one access of an open file covers.
use mathlib.Core.Option
use mathlib.Core.Bool.{true≢false}
use unifat.Prelude.{
  ℕ, zero, suc, ◌+◌, ◌-◌, ◌*◌, ◌≤◌, ◌<◌, ◌≡◌, inl, inr, refl, sym, ap, ◌∙◌, subst, arith, Bool,
  true, false, Bool-cases, Option, some, none, Image, ltb,
}
use unifat.Error.{ok, err, abort, FileResult, and_then}
use unifat.Codec.Time.{Calendar}
use unifat.Stream.Traits.{Backing}
use unifat.Stream.{StreamFile, adjacent, past_u32, span_loop, contiguous_span, on_world}
use unifat.Stream.Content.{Links, nth_cluster, nth_cluster-suc, Looks, Laws, byte_at, byte_at-part}
use unifat.Stream.Walking.{Placed, Open, Moved, Moved-trans}

module _ (K : Calendar) (B : Backing K) (L : Laws K B) where
  open B use {World, Io}

  -- The file's bytes from `start` on lie one after another on the disk, from the cluster `c` on.
  abbrev pub Run : Image → Links → ℕ → ℕ → ℕ → ℕ → Type 0
  Run f g first start c n =
      (r : ℕ) → r < n → byte_at K B f g first (start + r) ≡ some (f (B.cluster_to_offset c + r))

  -- A span of `a` bytes from `within` on, in the clusters from `c` on, which hold the file from `start` on.
  abbrev pub SpanTo :
      StreamFile K B → Image → Links → ℕ → ℕ → ℕ → ℕ → StreamFile K B × FileResult Io ℕ → Type 0
  SpanTo s f g start c within least (s', ok a) =
      Moved K B L s s'
      × Open K B L s' f g
      × (least ≤ a)
      × Run f g s.first_cluster start c (within + a)
  SpanTo s f g start c within least (s', err e) = Moved K B L s s' × Open K B L s' f g
  SpanTo s f g start c within least (s', abort) = ⊥

  SpanTo-step :
      (s s' : StreamFile K B) (f : Image) (g : Links) (start c within least more : ℕ)
      → Moved K B L s s'
      → least ≤ more
      → (q : StreamFile K B × FileResult Io ℕ) → SpanTo s' f g start c within more q
      → SpanTo s f g start c within least q
  SpanTo-step s s' f g start c within least more m le (t, ok a) (m', o, bound, run) = (
    Moved-trans K B L s s' t m m',
    o,
    omega arith,
    subst (λ (x : StreamFile K B). Run f g x.first_cluster start c (within + a)) m run,
  )
  SpanTo-step s s' f g start c within least more m le (t, err e) (m', o) =
      (Moved-trans K B L s s' t m m', o)
  SpanTo-step s s' f g start c within least more m le (t, abort) none_left = none_left

  -- A run grows by a cluster that is linked from its last one and lies behind it.
  Run-grow :
      (f : Image) (g : Links) (first start c n last idx : ℕ)
      → Run f g first start c n
      → nth_cluster g first (idx + 1) ≡ some (last + 1)
      → (idx + 1) * B.cluster_size ≡ start + n
      → B.cluster_to_offset (last + 1) ≡ B.cluster_to_offset c + n
      → Run f g first start c (n + B.cluster_size)
  Run-grow f g first start c n last idx run at here there r lt = elim (Bool-cases (ltb r n)) [
    | inl old ↦ run r (ground arith)
    | inr new ↦
        let part = byte_at-part K B f g first (idx + 1) (r - n) (ground arith) at in
        let place : (idx + 1) * B.cluster_size + (r - n) ≡ start + r = ground arith in
        let spot : B.cluster_to_offset (last + 1) + (r - n) ≡ B.cluster_to_offset c + r =
          ground arith in
        ap (byte_at K B f g first) (sym place) ∙ part ∙ ap (λ o. some (f o)) spot
  ]

  -- Where a span stands when it ends or goes on.
  pub record Spanning (s : StreamFile K B) (f : Image) (g : Links)
      (start c within last idx avail : ℕ) : Type 0 where
    pub view : L.View s.world f g
    pub placed : Placed K B L s g
    pub reached : nth_cluster g s.first_cluster idx ≡ some last
    pub ends : (idx + 1) * B.cluster_size ≡ start + (within + avail)
    pub behind :
        B.cluster_to_offset last + B.cluster_size ≡ B.cluster_to_offset c + (within + avail)
    pub run : Run f g s.first_cluster start c (within + avail)

  Spanning-stop :
      (s : StreamFile K B) (f : Image) (g : Links) (start c within last idx avail : ℕ)
      → Spanning s f g start c within last idx avail
      → SpanTo s f g start c within avail
          (record s { current_cluster = some last; current_index = idx }, ok avail)
  Spanning-stop s f g start c within last idx avail p = (
    refl,
    record { view = p.view; placed = λ d e. rw (sym (Option.some-injective last d e)) p.reached },
    omega arith,
    p.run,
  )

  Spanning-next :
      (s : StreamFile K B) (w : World) (f : Image) (g : Links) (start c within last idx avail : ℕ)
      → Spanning s f g start c within last idx avail
      → L.View w f g
      → g last ≡ some (last + 1)
      → Spanning
          (record s { world = w })
          f
          g
          start
          c
          within
          (last + 1)
          (idx + 1)
          (avail + B.cluster_size)
  Spanning-next s w f g start c within last idx avail p view link =
      let after = L.affine w f g last view link in
      let next_at = nth_cluster-suc g s.first_cluster idx p.reached link in
      let sum : within + (avail + B.cluster_size) ≡ within + avail + B.cluster_size = omega arith in
      record {
        view = view;
        placed = p.placed;
        reached = next_at;
        ends = let e = p.ends in grind arith;
        behind = omega (arith, p.behind);
        run = rw sum (
            Run-grow f g s.first_cluster start c (within + avail) last idx p.run next_at p.ends
              (omega (arith, p.behind)));
      }

  adjacent-true : (o : Option ℕ) (last : ℕ) → adjacent K B o last ≡ true → o ≡ some (last + 1)
  adjacent-true none last e = cc
  adjacent-true (some n) last e = ground arith

  span_loop-SpanTo :
      (fuel : ℕ) (s : StreamFile K B) (f : Image) (g : Links)
      (start c within last idx avail wanted : ℕ)
      → Spanning s f g start c within last idx avail
      → wanted ≤ avail + fuel
      → SpanTo s f g start c within avail (span_loop K B fuel s last idx avail wanted)
  unfolding span_loop
  span_loop-SpanTo zero s f g start c within last idx avail wanted p enough =
      let done : ltb avail wanted ≡ false = ground arith in
      rw done (Spanning-stop s f g start c within last idx avail p)
  span_loop-SpanTo (suc fuel) s f g start c within last idx avail wanted p enough =
      go (ltb avail wanted) (B.next last s.world) (L.next-link s.world f g last p.view)
        (λ w view link.
          span_loop-SpanTo fuel (record s { world = w }) f g start c within (last + 1) (idx + 1)
            (avail + B.cluster_size) wanted
            (Spanning-next s w f g start c within last idx avail p view link)
            (omega (arith, L.some_bytes)))
    where
      more : World → StreamFile K B × FileResult Io ℕ
      more w =
          span_loop K B fuel (record s { world = w }) (last + 1) (idx + 1) (avail + B.cluster_size)
            wanted

      step :
          (w : World) (l : Option ℕ) (b : Bool)
          → adjacent K B l last ≡ b
          → L.View w f g
          → l ≡ g last
          → (L.View w f g
              → g last ≡ some (last + 1)
              → SpanTo
                  (record s { world = w })
                  f
                  g
                  start
                  c
                  within
                  (avail + B.cluster_size)
                  (more w))
          → SpanTo s f g start c within avail (elim b [
            | true ↦ more w
            | false ↦
                (record s { world = w; current_cluster = some last; current_index = idx }, ok avail)
          ])
      step w l true adj view link rest =
          SpanTo-step s (record s { world = w }) f g start c within avail (avail + B.cluster_size)
            refl (omega arith) (more w) (rest view (sym link ∙ adjacent-true l last adj))
      step w l false adj view link rest = (
        refl,
        record { view = view; placed = λ d e. rw (sym (Option.some-injective last d e)) p.reached },
        omega arith,
        p.run,
      )

      counts : (w : World) (l : Option ℕ) → L.View w f g → l ≡ g last → past_u32 K B l last ≡ false
      counts w none view link = refl
      counts w (some d) view link =
          let below = L.counted w f g last d view (sym link) in ground arith

      checked :
          (w : World) (l : Option ℕ) (b : Bool)
          → b ≡ false
          → SpanTo s f g start c within avail (elim (adjacent K B l last) [
            | true ↦ more w
            | false ↦
                (record s { world = w; current_cluster = some last; current_index = idx }, ok avail)
          ])
          → SpanTo s f g start c within avail (elim b [
            | true ↦ (record s { world = w }, abort)
            | false ↦ elim (adjacent K B l last) [
              | true ↦ more w
              | false ↦ (
                record s { world = w; current_cluster = some last; current_index = idx },
                ok avail,
              )
            ]
          ])
      checked w l true e spans = absurd (true≢false e)
      checked w l false e spans = spans

      next_step :
          (q : World × FileResult Io (Option ℕ))
          → Looks K B (λ w'. L.View w' f g) (λ l. l ≡ g last) q
          → ((w : World)
              → L.View w f g
              → g last ≡ some (last + 1)
              → SpanTo
                  (record s { world = w })
                  f
                  g
                  start
                  c
                  within
                  (avail + B.cluster_size)
                  (more w))
          → SpanTo s f g start c within avail (
              and_then (on_world K B s q) (λ s' o. elim (past_u32 K B o last) [
                | true ↦ (s', abort)
                | false ↦ elim (adjacent K B o last) [
                  | true ↦
                      span_loop K B fuel s' (last + 1) (idx + 1) (avail + B.cluster_size) wanted
                  | false ↦
                      (record s' { current_cluster = some last; current_index = idx }, ok avail)
                ]
              ]))
      next_step (w, ok l) (view, link) rest =
          checked w l (past_u32 K B l last) (counts w l view link)
            (step w l (adjacent K B l last) refl view link (rest w))
      next_step (w, err e) view rest = (refl, record { view = view; placed = p.placed })
      next_step (w, abort) none_left rest = none_left

      go :
          (b : Bool) (q : World × FileResult Io (Option ℕ))
          → Looks K B (λ w'. L.View w' f g) (λ l. l ≡ g last) q
          → ((w : World)
              → L.View w f g
              → g last ≡ some (last + 1)
              → SpanTo
                  (record s { world = w })
                  f
                  g
                  start
                  c
                  within
                  (avail + B.cluster_size)
                  (more w))
          → SpanTo s f g start c within avail (elim b [
            | false ↦ (record s { current_cluster = some last; current_index = idx }, ok avail)
            | true ↦ and_then (on_world K B s q) (λ s' o. elim (past_u32 K B o last) [
              | true ↦ (s', abort)
              | false ↦ elim (adjacent K B o last) [
                | true ↦ span_loop K B fuel s' (last + 1) (idx + 1) (avail + B.cluster_size) wanted
                | false ↦ (record s' { current_cluster = some last; current_index = idx }, ok avail)
              ]
            ])
          ])
      go false q looks rest = Spanning-stop s f g start c within last idx avail p
      go true q looks rest = next_step q looks rest

  -- The span from the cluster of index `nth` on: at least the rest of that cluster.
  pub contiguous_span-SpanTo :
      (s : StreamFile K B) (f : Image) (g : Links) (c nth within wanted : ℕ)
      → Open K B L s f g
      → within ≤ B.cluster_size
      → nth_cluster g s.first_cluster nth ≡ some c
      → SpanTo s f g
          (nth * B.cluster_size)
          c
          within
          (B.cluster_size - within)
          (contiguous_span K B s c nth (B.cluster_size - within) wanted)
  unfolding contiguous_span
  contiguous_span-SpanTo s f g c nth within wanted o fits at =
      let cs = B.cluster_size in
      let whole : within + (cs - within) ≡ cs = omega arith in
      span_loop-SpanTo (wanted - (cs - within)) s f g (nth * cs) c within c nth (cs - within) wanted
        (record {
          view = o.view;
          placed = o.placed;
          reached = at;
          ends = rw whole (grind arith);
          behind = rw whole refl;
          run = rw whole (λ r lt. byte_at-part K B f g s.first_cluster nth r lt at);
        })
        (omega arith)
