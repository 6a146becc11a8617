-- ===== src/Stream/Reading.antt =====
-- What a read of an open file returns.
use mathlib.Core.Option
use unifat.Prelude.{
  ℕ, zero, suc, ◌+◌, ◌-◌, ◌*◌, ◌/◌, ◌%◌, ◌^◌, ◌≤◌, ◌<◌, ◌≡◌, ◌⊎◌, inl, inr, refl, sym, ap, ◌∙◌,
  subst, arith, true, false, ◌&&◌, ◌||◌, Bool-cases, Option, some, none, List, Image, slice,
  if◌then◌else◌, ltb, leb, ◌==◌, min, length, get_elem?, replicate, length-slice,
}
use unifat.Error.{ok, err, abort, FileResult, and_then}
use unifat.Codec.Time.{Calendar}
use unifat.Stream.Traits.{Backing}
use unifat.Stream.{
  StreamFile, seek_to_cluster, contiguous_span, on_world, as_u32, or_corrupt, touch_accessed,
}
use unifat.Stream.Methods.{read, read_data}
use unifat.Stream.Content.{Links, nth_cluster, Looks, Laws, byte_at, split_part}
use unifat.Stream.Walking.{Open, Moved, At, WalkTo, seek_to_cluster-WalkTo}
use unifat.Stream.Span.{Run, SpanTo, contiguous_span-SpanTo}

get_elem?-slice :
    (f : Image) (off n i : ℕ) → i < n → get_elem? (slice f off n) i ≡ some (f (off + i))
unfolding slice
get_elem?-slice f off zero i h = absurd (omega arith)
get_elem?-slice f off (suc n) zero h = ap (λ o. some (f o)) (omega arith)
get_elem?-slice f off (suc n) (suc i) h =
    get_elem?-slice f (off + 1) n i (omega arith) ∙ ap (λ o. some (f o)) (omega arith)

get_elem?-zeros : (n i : ℕ) → i < n → get_elem? {A = ℕ} (replicate n 0) i ≡ some 0
get_elem?-zeros zero i h = absurd (omega arith)
get_elem?-zeros (suc n) zero h = refl
get_elem?-zeros (suc n) (suc i) h = get_elem?-zeros n i (omega arith)

length-zeros : (n : ℕ) → length {A = ℕ} (replicate n 0) ≡ n
length-zeros zero = refl
length-zeros (suc n) = ap suc (length-zeros n)

div-lt : (x cs k : ℕ) → x < k * cs → x / cs < k
div-lt x cs k h = grind arith

module _ (K : Calendar) (B : Backing K) (L : Laws K B) where
  open K use {Date, Time}
  open B use {World, Io}

  -- A byte of the file: what the disk holds up to the valid length, and zero from there on.
  abbrev pub file_byte : StreamFile K B → Image → Links → ℕ → Option ℕ
  file_byte s f g i = if ltb i s.valid_len then byte_at K B f g s.first_cluster i else some 0

  -- The valid length is a part of the file, and the clusters below it have numbers of 32 bits.
  abbrev pub Sized : StreamFile K B → Type 0
  Sized s = (s.valid_len ≤ s.len) × (s.valid_len ≤ 2 ^ 32 * B.cluster_size)

  abbrev pub SameFile : StreamFile K B → StreamFile K B → Type 0
  SameFile s s' =
      (s'.len ≡ s.len) × (s'.valid_len ≡ s.valid_len) × (s'.first_cluster ≡ s.first_cluster)

  abbrev pub ReadFile :
      StreamFile K B → Image → Links → ℕ → StreamFile K B × FileResult Io (List ℕ) → Type 0
  ReadFile s f g n (s', ok bytes) =
      Open K B L s' f g
      × SameFile s s'
      × (s'.pos ≡ s.pos + length bytes)
      × (length bytes ≤ n)
      × ((length bytes ≡ 0) ⊎ (s.pos + length bytes ≤ s.len))
      × (0 < n → s.pos < s.len → 0 < length bytes)
      × ((i : ℕ) → i < length bytes → get_elem? bytes i ≡ file_byte s f g (s.pos + i))
  ReadFile s f g n (s', err e) = Open K B L s' f g × SameFile s s' × (s'.pos ≡ s.pos)
  ReadFile s f g n (s', abort) = ⊥

  touch_accessed-Open :
      (s : StreamFile K B) (f : Image) (g : Links) (now : Date × Time)
      → Open K B L s f g
      → Open K B L (touch_accessed K B s now) f g
        × SameFile s (touch_accessed K B s now)
        × ((touch_accessed K B s now).pos ≡ s.pos)
  unfolding touch_accessed
  touch_accessed-Open s f g now o = elim (Bool-cases (s.writable && s.update_times)) [
    | inl on ↦ rw on (record { view = o.view; placed = o.placed }, (refl, refl, refl), refl)
    | inr off ↦ rw off (o, (refl, refl, refl), refl)
  ]

  -- What is read from the disk, once the span is known.
  read_span :
      (s s2 : StreamFile K B) (f : Image) (g : Links) (n c start within wanted span : ℕ)
      (now : Date × Time)
      → Open K B L s2 f g
      → SameFile s s2
      → s2.pos ≡ s.pos
      → Sized s
      → start + within ≡ s.pos
      → wanted ≡ min n (s.valid_len - s.pos)
      → s.pos < s.valid_len
      → 0 < n
      → 0 < span
      → Run K B L f g s.first_cluster start c (within + span)
      → (q : World × FileResult Io (List ℕ))
      → Looks K B
          (λ w'. L.View w' f g)
          (λ bytes. bytes ≡ slice f (B.cluster_to_offset c + within) (min wanted span))
          q
      → ReadFile s f g n (
          and_then (on_world K B s2 q) (λ s3 bytes.
            (touch_accessed K B (record s3 { pos = s3.pos + min wanted span }) now, ok bytes)))
  read_span s s2 f g n c start within wanted span now o same pos sized place want room some_wanted
        some_span run (w, ok bytes) (view, all) =
      let s4 : StreamFile K B = record s2 { world = w; pos = s2.pos + min wanted span } in
      let (o', kept, stays) =
        touch_accessed-Open s4 f g now (record { view = view; placed = o.placed }) in
      let len : length bytes ≡ min wanted span =
        ap length all ∙ length-slice f (B.cluster_to_offset c + within) (min wanted span) in
      (
        o',
        (kept.0 ∙ same.0, kept.1 ∙ same.1, kept.2 ∙ same.2),
        omega arith,
        omega arith,
        inr (omega arith),
        λ _ _. omega arith,
        λ i lt.
            let at = run (within + i) (omega arith) in
            let valid : ltb (s.pos + i) s.valid_len ≡ true = ground arith in
            let spot : B.cluster_to_offset c + within + i ≡ B.cluster_to_offset c + (within + i) =
              omega arith in
            let there : start + (within + i) ≡ s.pos + i = omega arith in
            rw valid (
              ap (λ bs. get_elem? bs i) all
              ∙ get_elem?-slice f (B.cluster_to_offset c + within) (min wanted span) i (omega arith)
              ∙ ap (λ x. some (f x)) spot
              ∙ sym at
              ∙ ap (byte_at K B f g s.first_cluster) there),
      )
  read_span s s2 f g n c start within wanted span now o same pos sized place want room some_wanted
        some_span run (w, err e) view =
      (record { view = view; placed = o.placed }, same, pos)
  read_span s s2 f g n c start within wanted span now o same pos sized place want room some_wanted
        some_span run (w, abort) none_left =
      none_left

  Moved-SameFile : (s s' : StreamFile K B) → Moved K B L s s' → SameFile s s' × (s'.pos ≡ s.pos)
  Moved-SameFile s s' m = (
    (
      ap (λ (x : StreamFile K B). x.len) m,
      ap (λ (x : StreamFile K B). x.valid_len) m,
      ap (λ (x : StreamFile K B). x.first_cluster) m,
    ),
    ap (λ (x : StreamFile K B). x.pos) m,
  )

  read_data-ReadFile :
      (s : StreamFile K B) (f : Image) (g : Links) (n : ℕ) (now : Date × Time)
      → Open K B L s f g
      → Sized s
      → s.pos < s.valid_len
      → 0 < n
      → ReadFile s f g n (read_data K B s n now)
  unfolding read_data
  read_data-ReadFile s f g n now o sized room some_wanted =
      sought (seek_to_cluster K B s nth) (seek_to_cluster-WalkTo K B L s f g nth o)
    where
      cs : ℕ
      cs = B.cluster_size

      nth : ℕ
      nth = as_u32 K B (s.pos / cs)

      within : ℕ
      within = s.pos % cs

      -- The cluster's number fits, so it is not cut.
      place : (nth * cs + within ≡ s.pos) × (within < cs)
      place =
          let (sum, small) = split_part s.pos cs L.some_bytes in
          let short : s.pos / cs < 2 ^ 32 = div-lt s.pos cs (2 ^ 32) (omega arith) in
          let whole : nth ≡ s.pos / cs = omega arith in
          (ap (λ k. k * cs + within) whole ∙ sum, small)

      spanned :
          (s1 : StreamFile K B) (c : ℕ)
          → SameFile s s1
          → s1.pos ≡ s.pos
          → (q : StreamFile K B × FileResult Io ℕ)
          → SpanTo K B L s1 f g (nth * cs) c within (cs - within) q
          → ReadFile s f g n (
              and_then q (λ s2 span.
                and_then
                  (on_world K B s2 (
                    B.read_at
                      (B.cluster_to_offset c + within)
                      (min (min n (s1.valid_len - s1.pos)) span)
                      s2.world))
                  (λ s3 bytes. (
                    touch_accessed K B
                        (record s3 { pos = s3.pos + min (min n (s1.valid_len - s1.pos)) span })
                        now,
                    ok bytes,
                  ))))
      spanned s1 c same pos (s2, ok span) (m, o2, least, run) =
          let (kept, stays) = Moved-SameFile s1 s2 m in
          let small = place.1 in
          read_span s s2 f g n c (nth * cs) within (min n (s1.valid_len - s1.pos)) span now o2
            (kept.0 ∙ same.0, kept.1 ∙ same.1, kept.2 ∙ same.2) (stays ∙ pos) sized place.0
            (omega (arith, same.1, pos)) room some_wanted (omega arith)
            (subst (λ k. Run K B L f g k (nth * cs) c (within + span)) same.2 run)
            (B.read_at (B.cluster_to_offset c + within) (min (min n (s1.valid_len - s1.pos)) span)
              s2.world)
            (L.read_at-slice s2.world f g (B.cluster_to_offset c + within)
              (min (min n (s1.valid_len - s1.pos)) span) o2.view)
      spanned s1 c same pos (s2, err e) (m, o2) =
          let (kept, stays) = Moved-SameFile s1 s2 m in
          (o2, (kept.0 ∙ same.0, kept.1 ∙ same.1, kept.2 ∙ same.2), stays ∙ pos)
      spanned s1 c same pos (s2, abort) none_left = none_left

      arrived :
          (s1 : StreamFile K B) (l : Option ℕ)
          → s1.current_cluster ≡ l
          → Moved K B L s s1
          → L.View s1.world f g
          → At K B L s1 g nth
          → ReadFile s f g n (
              or_corrupt K B s1 l (λ cluster.
                let wanted = min n (s1.valid_len - s1.pos) in
                and_then (contiguous_span K B s1 cluster nth (cs - within) wanted) (λ s2 span.
                  and_then
                    (on_world K B s2
                      (B.read_at (B.cluster_to_offset cluster + within) (min wanted span) s2.world))
                    (λ s3 bytes. (
                      touch_accessed K B (record s3 { pos = s3.pos + min wanted span }) now,
                      ok bytes,
                    )))))
      arrived s1 none e m view at =
          let (same, pos) = Moved-SameFile s s1 m in
          (
            record { view = view; placed = λ c e'. absurd (Option.none-ne-some c (sym e ∙ e')) },
            same,
            pos,
          )
      arrived s1 (some c) e m view at =
          let (same, pos) = Moved-SameFile s s1 m in
          let (reached, index) = at c e in
          let o1 : Open K B L s1 f g = record {
            view = view;
            placed = λ d e'. ap (nth_cluster g s1.first_cluster) ((at d e').1) ∙ (at d e').0;
          } in
          spanned s1 c same pos
            (contiguous_span K B s1 c nth (cs - within) (min n (s1.valid_len - s1.pos)))
            (contiguous_span-SpanTo K B L s1 f g c nth within (min n (s1.valid_len - s1.pos)) o1
              (let small = place.1 in omega arith) reached)

      sought :
          (q : StreamFile K B × FileResult Io (Unit {0}))
          → WalkTo K B L s f g nth q
          → ReadFile s f g n (
              and_then q (λ s1 _. or_corrupt K B s1 s1.current_cluster (λ cluster.
                let wanted = min n (s1.valid_len - s1.pos) in
                and_then (contiguous_span K B s1 cluster nth (cs - within) wanted) (λ s2 span.
                  and_then
                    (on_world K B s2
                      (B.read_at (B.cluster_to_offset cluster + within) (min wanted span) s2.world))
                    (λ s3 bytes. (
                      touch_accessed K B (record s3 { pos = s3.pos + min wanted span }) now,
                      ok bytes,
                    ))))))
      sought (s1, ok u) (m, view, at) = arrived s1 s1.current_cluster refl m view at
      sought (s1, err e) (m, o1) = let (same, pos) = Moved-SameFile s s1 m in (o1, same, pos)
      sought (s1, abort) none_left = none_left

  -- A read of an open file, whose valid length is a part of its length and has cluster numbers of 32
  -- bits, over a volume that keeps its laws: it returns the bytes of the file from the position on,
  -- those of its clusters up to the valid length and zeros from there to the end, no more than asked
  -- for and some where there are any, and moves the position past them. The bytes of the file and its
  -- lengths are the same after it, also where the volume fails. It ends, and does not panic.
  pub read-ReadFile :
      (s : StreamFile K B) (f : Image) (g : Links) (n : ℕ) (now : Date × Time)
      → Open K B L s f g
      → Sized s
      → ReadFile s f g n (read K B s n now)
  unfolding read
  read-ReadFile s f g n now o sized = elim (Bool-cases ((n == 0) || leb s.len s.pos)) [
    | inl nothing ↦ rw nothing (
      o,
      (refl, refl, refl),
      omega arith,
      omega arith,
      inl refl,
      λ a b. absurd (ground arith),
      λ i lt. absurd (omega arith),
    )
    | inr something ↦ elim (Bool-cases (leb s.valid_len s.pos)) [
      | inl past ↦
          let k = min (s.len - s.pos) n in
          let (o', same, pos) =
            touch_accessed-Open (record s { pos = s.pos + k }) f g now
              (record { view = o.view; placed = o.placed }) in
          let len = length-zeros k in
          rw (something, past)
            (
              o',
              same,
              pos ∙ omega arith,
              omega arith,
              ground arith,
              λ a b. ground arith,
              λ i lt.
                  let beyond : ltb (s.pos + i) s.valid_len ≡ false = ground arith in
                  rw beyond (get_elem?-zeros k i (omega arith)),
            )
      | inr data_left ↦
          rw (something, data_left)
            (read_data-ReadFile s f g n now o sized (ground arith) (ground arith))
    ]
  ]
