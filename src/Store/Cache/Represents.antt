-- ===== src/Store/Cache/Represents.antt =====
-- What the sector cache stands for: one image of the whole medium, cached sectors and the bytes on
-- the device taken together. The slots of src/store/cache.rs represent that image over the device's.
use unifat.Prelude.{
  ℕ, ◌+◌, ◌*◌, ◌/◌, ◌^◌, ◌≤◌, ◌<◌, ◌≡◌, ◌≢◌, inl, inr, refl, sym, ap, ◌∙◌, true, some, List, arith,
  length, get_elem?, set, Image, slice, get_elem?-set_cases, get_elem?-set_self, get_elem?-set_ne,
  length-slice, get_or-slice, ext, get_elem?-lt, ℕ_discrete,
}
use unifat.Store.Cache.{Slot, empty_sector}

-- `ss` is the sector size, `img` the bytes on the device, `f` the image that is represented.
pub record Represents (ss : ℕ) (img : Image) (slots : List Slot) (f : Image) : Type 0 where
  pub sized : (i : ℕ) (s : Slot) → get_elem? slots i ≡ some s → length s.buf ≡ ss
  -- A slot that holds a sector holds its bytes.
  pub cached :
      (i : ℕ) (s : Slot)
      → get_elem? slots i ≡ some s
      → s.sector ≢ empty_sector
      → s.buf ≡ slice f (s.sector * ss) ss
  -- A dirty slot holds a sector, which starts at a 64-bit offset, so its write-back can seek to it.
  pub filled :
      (i : ℕ) (s : Slot)
      → get_elem? slots i ≡ some s
      → s.dirty ≡ true
      → (s.sector ≢ empty_sector) × (s.sector * ss < 2 ^ 64)
  -- No two slots hold one sector.
  pub distinct :
      (i j : ℕ) (s t : Slot)
      → get_elem? slots i ≡ some s
      → get_elem? slots j ≡ some t
      → s.sector ≡ t.sector
      → s.sector ≢ empty_sector
      → i ≡ j
  -- Outside the dirty slots the device is up to date.
  pub on_device :
      (o : ℕ)
      → ((i : ℕ) (s : Slot) → get_elem? slots i ≡ some s → s.dirty ≡ true → s.sector ≢ o / ss)
      → img o ≡ f o

pub div_block : (sec ss i : ℕ) → i < ss → (sec * ss + i) / ss ≡ sec
div_block sec ss i h = grind arith

-- `o` lies in the sector of its quotient.
pub in_block : (o ss : ℕ) → 0 < ss → (o / ss * ss ≤ o) × (o < o / ss * ss + ss)
in_block o ss h = grind arith

pub slice-ext :
    (f g : Image) (off off' n : ℕ)
    → ((i : ℕ) → i < n → f (off + i) ≡ g (off' + i))
    → slice f off n ≡ slice g off' n
slice-ext f g off off' n h = ext _ _ 0 (length-slice f off n ∙ sym (length-slice g off' n)) (λ i hi.
    let hi' : i < n = omega (arith, length-slice f off n) in
    get_or-slice f off n i 0 hi' ∙ h i hi' ∙ sym (get_or-slice g off' n i 0 hi'))

-- What is known of the slots other than `i`.
pub record Others (ss : ℕ) (slots : List Slot) (f : Image) (i : ℕ) : Type 0 where
  pub sized : (j : ℕ) (t : Slot) → get_elem? slots j ≡ some t → length t.buf ≡ ss
  pub cached :
      (j : ℕ) (t : Slot)
      → get_elem? slots j ≡ some t
      → j ≢ i
      → t.sector ≢ empty_sector
      → t.buf ≡ slice f (t.sector * ss) ss
  pub filled :
      (j : ℕ) (t : Slot)
      → get_elem? slots j ≡ some t
      → j ≢ i
      → t.dirty ≡ true
      → (t.sector ≢ empty_sector) × (t.sector * ss < 2 ^ 64)
  pub distinct :
      (j k : ℕ) (s t : Slot)
      → get_elem? slots j ≡ some s
      → get_elem? slots k ≡ some t
      → j ≢ i
      → k ≢ i
      → s.sector ≡ t.sector
      → s.sector ≢ empty_sector
      → j ≡ k

pub Represents-Others :
    {ss : ℕ} {img : Image} {slots : List Slot} {f : Image} (i : ℕ)
    → Represents ss img slots f
    → Others ss slots f i
Represents-Others i r = record {
  sized = r.sized;
  cached = λ j t at _. r.cached j t at;
  filled = λ j t at _. r.filled j t at;
  distinct = λ j k s t at at' _ _. r.distinct j k s t at at';
}

-- Another slot may be put at `i`, over another device, if it keeps what the image is.
pub Represents-set :
    {ss : ℕ} (img' : Image) {slots : List Slot} {f : Image} (f' : Image) {i : ℕ} (s' : Slot)
    → Others ss slots f i
    → length s'.buf ≡ ss
    → (s'.sector ≢ empty_sector → s'.buf ≡ slice f' (s'.sector * ss) ss)
    → (s'.dirty ≡ true → (s'.sector ≢ empty_sector) × (s'.sector * ss < 2 ^ 64))
    → (s'.sector ≢ empty_sector
        → (j : ℕ) (t : Slot) → get_elem? slots j ≡ some t
        → j ≢ i
        → t.sector ≢ s'.sector)
    → ((j : ℕ) (t : Slot)
        → get_elem? slots j ≡ some t
        → j ≢ i
        → t.sector ≢ empty_sector
        → slice f' (t.sector * ss) ss ≡ slice f (t.sector * ss) ss)
    → ((o : ℕ)
        → ((j : ℕ) (t : Slot)
            → get_elem? (set slots i s') j ≡ some t
            → t.dirty ≡ true
            → t.sector ≢ o / ss)
        → img' o ≡ f' o)
    → Represents ss img' (set slots i s') f'
Represents-set {ss} img' {slots} {f} f' {i} s' r size own full fresh agree dev = record {
  sized = λ j t at. elim (get_elem?-set_cases slots i j s' at) [
    | inl (e, q) ↦ rw q size
    | inr (ne, q) ↦ r.sized j t q
  ];
  cached = λ j t at. elim (get_elem?-set_cases slots i j s' at) [
    | inl (e, q) ↦ rw q own
    | inr (ne, q) ↦
        λ held. r.cached j t q (λ e. ne (sym e)) held ∙ sym (agree j t q (λ e. ne (sym e)) held)
  ];
  filled = λ j t at. elim (get_elem?-set_cases slots i j s' at) [
    | inl (e, q) ↦ rw q full
    | inr (ne, q) ↦ r.filled j t q (λ e. ne (sym e))
  ];
  distinct = λ j k s t at at'. elim (get_elem?-set_cases slots i j s' at) [
    | inl (e, q) ↦ elim (get_elem?-set_cases slots i k s' at') [
      | inl (e', q') ↦ λ same held. sym e ∙ e'
      | inr (ne', q') ↦ rw q (λ same held. absurd (fresh held k t q' (λ x. ne' (sym x)) (sym same)))
    ]
    | inr (ne, q) ↦ elim (get_elem?-set_cases slots i k s' at') [
      | inl (e', q') ↦
          rw q' (λ same held. absurd (fresh (λ x. held (same ∙ x)) j s q (λ x. ne (sym x)) same))
      | inr (ne', q') ↦ r.distinct j k s t q q' (λ x. ne (sym x)) (λ x. ne' (sym x))
    ]
  ];
  on_device = dev;
}

-- Slot `i` is taken for `sec`, whose bytes are about to be written: nothing is said of them.
pub record Holds (ss : ℕ) (img : Image) (slots : List Slot) (f : Image) (i sec : ℕ) : Type 0 where
  pub others : Others ss slots f i
  pub slot : Slot
  pub at : get_elem? slots i ≡ some slot
  pub sector : slot.sector ≡ sec
  pub fresh : (j : ℕ) (t : Slot) → get_elem? slots j ≡ some t → j ≢ i → t.sector ≢ sec
  pub device :
      (o : ℕ)
      → o / ss ≢ sec
      → ((j : ℕ) (t : Slot)
          → get_elem? slots j ≡ some t
          → j ≢ i
          → t.dirty ≡ true
          → t.sector ≢ o / ss)
      → img o ≡ f o

pub Represents-Holds :
    {ss : ℕ} {img : Image} {slots : List Slot} {f : Image} (i : ℕ) (s : Slot)
    → Represents ss img slots f
    → get_elem? slots i ≡ some s
    → s.sector ≢ empty_sector
    → Holds ss img slots f i s.sector
Represents-Holds {ss} {img} {slots} {f} i s r at held = record {
  others = Represents-Others i r;
  slot = s;
  at = at;
  sector = refl;
  fresh = λ j t at' ne same. ne (r.distinct j i t s at' at same (λ x. held (sym same ∙ x)));
  device = λ o away free. r.on_device o (λ j t at' dirty same. elim (ℕ_discrete j i) [
    | yes e ↦ away (sym same ∙ ap (λ (x : Slot). x.sector) (same_slot j t at' e))
    | no ne ↦ free j t at' ne dirty same
  ]);
}
  where
    same_slot : (j : ℕ) (t : Slot) → get_elem? slots j ≡ some t → j ≡ i → t ≡ s
    same_slot j t at' e = let q : get_elem? slots i ≡ some t = rw (← e) at' in cc

-- The bytes of the sector are put in place: the image is now `f'`, which differs from `f` in that
-- sector alone.
pub Holds-store :
    {ss : ℕ} {img : Image} {slots : List Slot} {f : Image} {i sec : ℕ} (f' : Image) (s' : Slot)
    → Holds ss img slots f i sec
    → 0 < ss
    → sec ≢ empty_sector
    → sec * ss < 2 ^ 64
    → s'.sector ≡ sec
    → s'.dirty ≡ true
    → length s'.buf ≡ ss
    → s'.buf ≡ slice f' (sec * ss) ss
    → ((o : ℕ) → o / ss ≢ sec → f' o ≡ f o)
    → Represents ss img (set slots i s') f'
Holds-store {ss} {img} {slots} {f} {i} {sec} f' s' h pos held near here dirty size bytes agree =
    Represents-set img f' s' h.others size (λ _. rw here bytes)
      (λ _. (λ e. held (sym here ∙ e), rw here near))
      (λ _ j t at ne same. h.fresh j t at ne (same ∙ here))
      (λ j t at ne _.
        slice-ext f' f (t.sector * ss) (t.sector * ss) ss
          (λ k hk. agree _ (λ e. h.fresh j t at ne (sym (div_block t.sector ss k hk) ∙ e))))
      (λ o free.
        let away : o / ss ≢ sec = λ e.
          free i s' (get_elem?-set_self slots i s' (get_elem?-lt slots i h.at)) dirty
            (here ∙ sym e) in
        h.device o away
          (λ j t at ne. free j t (get_elem?-set_ne slots i j s' (λ e. ne (sym e)) ∙ at))
        ∙ sym (agree o away))
