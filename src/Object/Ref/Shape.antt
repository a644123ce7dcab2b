-- ===== src/Object/Ref/Shape.antt =====
-- object/ref.go: `IsValidRef` accepts exactly the texts `<pubkey>.<uuid>`.
use mathlib.Core.List.{append-nil}
use dataverse_hub.Base.{
  ℕ, zero, suc, ◌+◌, ◌-◌, ◌≤◌, ◌≡◌, refl, ap, ◌↔◌, Bool, true, false, ◌&&◌, ◌∙◌, sym, List, [], ◌∷◌,
  ◌++◌, Bytes, length, some, byte_is, get_elem?, take, drop, all, arith, take-drop, length-take,
  length-drop, length-append, if◌then◌else◌,
}
use dataverse_hub.Object.Ref.{
  is_base64url_chars, is_hyphen_position, is_hex, uuid_from, is_canonical_uuid, is_valid_ref,
}
use dataverse_hub.Object.Ref.Alphabet.{
  IsBase64urlByte, IsHexDigit, Each, is_base64url_chars_sound, is_base64url_chars_complete,
  all-is_hex_sound, all-is_hex_complete,
}

-- A group of `n` hex digits.
pub record IsHexGroup (n : ℕ) (s : Bytes) : Type 0 where
  pub size : length s ≡ n
  pub digits : Each IsHexDigit s

-- The 8-4-4-4-12 form.
pub record IsUuid (s : Bytes) : Type 0 where
  pub a : Bytes
  pub b : Bytes
  pub c : Bytes
  pub d : Bytes
  pub e : Bytes
  pub form : s ≡ a ++ (b'-' ∷ (b ++ (b'-' ∷ (c ++ (b'-' ∷ (d ++ (b'-' ∷ e)))))))
  pub a_hex : IsHexGroup 8 a
  pub b_hex : IsHexGroup 4 b
  pub c_hex : IsHexGroup 4 c
  pub d_hex : IsHexGroup 4 d
  pub e_hex : IsHexGroup 12 e

-- `<pubkey>.<uuid>`
pub record IsRef (s : Bytes) : Type 0 where
  pub pubkey : Bytes
  pub id : Bytes
  pub form : s ≡ pubkey ++ (b'.' ∷ id)
  pub least : 43 ≤ length pubkey
  pub most : length pubkey ≤ 44
  pub alphabet : Each IsBase64urlByte pubkey
  pub uuid : IsUuid id

-- No position of a stretch of `n` from `i` on is a hyphen's.
abbrev is_stretch : ℕ → ℕ → Bool
is_stretch i zero = true
is_stretch i (suc n) = (if is_hyphen_position i then false else true) && is_stretch (suc i) n

-- Over a stretch of positions with no hyphen the loop tests hex digits.
uuid_from-stretch :
    (i : ℕ) (s t : Bytes)
    → is_stretch i (length s) ≡ true
    → uuid_from i (s ++ t) ≡ (all is_hex s && uuid_from (i + length s) t)
unfolding uuid_from
uuid_from-stretch i [] t h = ap (λ k. uuid_from k t) (omega arith)
uuid_from-stretch i (c ∷ s) t h =
    let ih = uuid_from-stretch (suc i) s t (ground arith) in
    let shift : suc i + length s ≡ i + suc (length s) = omega arith in
    let ih' : uuid_from (suc i) (s ++ t) ≡ (all is_hex s && uuid_from (i + suc (length s)) t) =
      rw (← shift) ih in
    ground arith

-- A hex group, the hyphen behind it, and `m` bytes that the loop still has to read.
record Group (n i m : ℕ) (s : Bytes) : Type 0 where
  digits : Bytes
  rest : Bytes
  form : s ≡ digits ++ (b'-' ∷ rest)
  hex : IsHexGroup n digits
  left : length rest ≡ m
  next : uuid_from (i + n + 1) rest ≡ true

hyphen_cons :
    (n i m : ℕ) (s a t : Bytes)
    → s ≡ a ++ t
    → IsHexGroup n a
    → is_hyphen_position (i + n) ≡ true
    → length t ≡ suc m
    → uuid_from (i + n) t ≡ true
    → Group n i m s
unfolding uuid_from
hyphen_cons n i m s a [] f g h l u = absurd (omega arith)
hyphen_cons n i m s a (c ∷ t) f g h l u =
    let e : c ≡ b'-' = ground arith in
    let u' : uuid_from (suc (i + n)) t ≡ true = ground arith in
    let k : suc (i + n) ≡ i + n + 1 = omega arith in
    record {
      digits = a;
      rest = t;
      form = ground arith;
      hex = g;
      left = omega arith;
      next = rw k at u';
    }

-- The loop reads a group of `n` digits where the positions are those of a group.
group :
    (n i m : ℕ) (s : Bytes)
    → is_stretch i n ≡ true
    → is_hyphen_position (i + n) ≡ true
    → length s ≡ n + suc m
    → uuid_from i s ≡ true
    → Group n i m s
group n i m s st hy long u =
    let a = take n s in
    let t = drop n s in
    let size : length a ≡ n = length-take n s (omega arith) in
    let both : uuid_from i (a ++ t) ≡ true = rw (take-drop n s) u in
    let split = uuid_from-stretch i a t (rw size st) in
    let split' : uuid_from i (a ++ t) ≡ (all is_hex a && uuid_from (i + n) t) = rw size at split in
    hyphen_cons n i m s a t (sym (take-drop n s))
      (record { size = size; digits = all-is_hex_sound a (ground arith) }) hy
      (omega (arith, length-drop n s)) (ground arith)

-- The other way round: the loop passes over a hex group and its hyphen.
uuid_from-group :
    (n i : ℕ) (a t : Bytes)
    → is_stretch i n ≡ true
    → is_hyphen_position (i + n) ≡ true
    → IsHexGroup n a
    → uuid_from i (a ++ (b'-' ∷ t)) ≡ uuid_from (suc (i + n)) t
unfolding uuid_from
uuid_from-group n i a t st hy g =
    let split = uuid_from-stretch i a (b'-' ∷ t) (rw (g.size) st) in
    let split' : uuid_from i (a ++ (b'-' ∷ t)) ≡ (all is_hex a && uuid_from (i + n) (b'-' ∷ t)) =
      rw (g.size) at split in
    ground (arith, all-is_hex_complete a g.digits)

uuid_from-last :
    (n i : ℕ) (a : Bytes) → is_stretch i n ≡ true → length a ≡ n → uuid_from i a ≡ all is_hex a
unfolding uuid_from
uuid_from-last n i a st size =
    let split = uuid_from-stretch i a [] (rw size st) in
    let split' : uuid_from i a ≡ (all is_hex a && true) = rw (append-nil a) at split in ground arith

uuid_from_sound : (s : Bytes) → length s ≡ 36 → uuid_from 0 s ≡ true → IsUuid s
uuid_from_sound s size loop =
    let ga = group 8 0 27 s refl refl size loop in
    let gb = group 4 9 22 ga.rest refl refl ga.left ga.next in
    let gc = group 4 14 17 gb.rest refl refl gb.left gb.next in
    let gd = group 4 19 12 gc.rest refl refl gc.left gc.next in
    record {
      a = ga.digits;
      b = gb.digits;
      c = gc.digits;
      d = gd.digits;
      e = gd.rest;
      form = rw (← gd.form, ← gc.form, ← gb.form) ga.form;
      a_hex = ga.hex;
      b_hex = gb.hex;
      c_hex = gc.hex;
      d_hex = gd.hex;
      e_hex = record {
        size = gd.left;
        digits =
            all-is_hex_sound gd.rest (sym (uuid_from-last 12 24 gd.rest refl gd.left) ∙ gd.next);
      };
    }

is_canonical_uuid_sound : (s : Bytes) → is_canonical_uuid s ≡ true → IsUuid s
unfolding is_canonical_uuid
is_canonical_uuid_sound s h = uuid_from_sound s (ground arith) (ground arith)

uuid_from_complete : (s : Bytes) → IsUuid s → uuid_from 0 s ≡ true
uuid_from_complete s u = rw (u.form) (
    uuid_from-group 8 0 u.a _ refl refl u.a_hex
    ∙ uuid_from-group 4 9 u.b _ refl refl u.b_hex
    ∙ uuid_from-group 4 14 u.c _ refl refl u.c_hex
    ∙ uuid_from-group 4 19 u.d _ refl refl u.d_hex
    ∙ uuid_from-last 12 24 u.e refl (u.e_hex.size)
    ∙ all-is_hex_complete u.e (u.e_hex.digits))

length-cons_append :
    (n m : ℕ) (a t : Bytes) → length a ≡ n → length t ≡ m → length (a ++ (b'-' ∷ t)) ≡ suc (n + m)
length-cons_append n m a t p q = omega (arith, length-append a (b'-' ∷ t))

length-IsUuid : (s : Bytes) → IsUuid s → length s ≡ 36
length-IsUuid s u = rw (u.form) (
    length-cons_append 8 27 u.a _ (u.a_hex.size) (
      length-cons_append 4 22 u.b _ (u.b_hex.size) (
        length-cons_append 4 17 u.c _ (u.c_hex.size)
          (length-cons_append 4 12 u.d _ (u.d_hex.size) (u.e_hex.size)))))

is_canonical_uuid_complete : (s : Bytes) → IsUuid s → is_canonical_uuid s ≡ true
unfolding is_canonical_uuid
is_canonical_uuid_complete s u = ground (arith, length-IsUuid s u, uuid_from_complete s u)

-- `isCanonicalUUID` accepts exactly the texts of the 8-4-4-4-12 form.
pub is_canonical_uuid_iff : (s : Bytes) → (is_canonical_uuid s ≡ true) ↔ IsUuid s
is_canonical_uuid_iff s = (is_canonical_uuid_sound s, is_canonical_uuid_complete s)

get_elem?-cons {ℓ} :
    {A : Type ℓ} (xs ys : List A) (y : A) → get_elem? (xs ++ (y ∷ ys)) (length xs) ≡ some y
get_elem?-cons [] ys y = refl
get_elem?-cons (x ∷ xs) ys y = get_elem?-cons xs ys y

take-length {ℓ} : {A : Type ℓ} (xs ys : List A) → take (length xs) (xs ++ ys) ≡ xs
take-length [] ys = refl
take-length (x ∷ xs) ys = ap (◌∷◌ x) (take-length xs ys)

drop-length {ℓ} :
    {A : Type ℓ} (xs ys : List A) (y : A) → drop (suc (length xs)) (xs ++ (y ∷ ys)) ≡ ys
drop-length [] ys y = refl
drop-length (x ∷ xs) ys y = drop-length xs ys y

drop-eq-cons :
    (n c : ℕ) (s : Bytes) → byte_is (get_elem? s n) c ≡ true → drop n s ≡ c ∷ drop (suc n) s
drop-eq-cons n c [] h = cc
drop-eq-cons zero c (x ∷ s) h = ground arith
drop-eq-cons (suc n) c (x ∷ s) h = drop-eq-cons n c s h

is_valid_ref_sound : (s : Bytes) → is_valid_ref s ≡ true → IsRef s
unfolding is_valid_ref
is_valid_ref_sound s h =
    let dot = length s - 37 in
    let low : 80 ≤ length s = ground arith in
    let high : length s ≤ 81 = ground arith in
    let at_dot : byte_is (get_elem? s dot) b'.' ≡ true = ground arith in
    let chars : is_base64url_chars (take dot s) ≡ true = ground arith in
    let id_part : is_canonical_uuid (drop (dot + 1) s) ≡ true = ground arith in
    let after : suc dot ≡ dot + 1 = omega arith in
    record {
      pubkey = take dot s;
      id = drop (dot + 1) s;
      form =
          sym (take-drop dot s)
          ∙ ap (λ t. take dot s ++ t) (rw after at (drop-eq-cons dot b'.' s at_dot));
      least = omega (arith, length-take dot s (omega arith));
      most = omega (arith, length-take dot s (omega arith));
      alphabet = is_base64url_chars_sound _ chars;
      uuid = is_canonical_uuid_sound _ id_part;
    }

is_valid_ref-append :
    (p id : Bytes)
    → 43 ≤ length p
    → length p ≤ 44
    → is_base64url_chars p ≡ true
    → is_canonical_uuid id ≡ true
    → length id ≡ 36
    → is_valid_ref (p ++ (b'.' ∷ id)) ≡ true
unfolding is_valid_ref
is_valid_ref-append p id low high chars uuid size =
    let total : length (p ++ (b'.' ∷ id)) ≡ length p + 37 =
      omega (arith, length-append p (b'.' ∷ id)) in
    let dot : length p + 37 - 37 ≡ length p = omega arith in
    let after : length p + 1 ≡ suc (length p) = omega arith in
    rw
      (
        total,
        dot,
        after,
        take-length p (b'.' ∷ id),
        drop-length p id b'.',
        get_elem?-cons p id b'.',
      )
      (ground arith)

is_valid_ref_complete : (s : Bytes) → IsRef s → is_valid_ref s ≡ true
is_valid_ref_complete s r = rw (r.form) (
    is_valid_ref-append r.pubkey r.id (r.least) (r.most)
      (is_base64url_chars_complete r.pubkey (r.alphabet)) (is_canonical_uuid_complete r.id (r.uuid))
      (length-IsUuid r.id (r.uuid)))

-- `IsValidRef` accepts exactly the texts `<pubkey>.<uuid>` whose pubkey is 43 or 44 characters of
-- the base64url alphabet and whose UUID has the 8-4-4-4-12 form in hex digits of either case.
pub is_valid_ref_iff : (s : Bytes) → (is_valid_ref s ≡ true) ↔ IsRef s
is_valid_ref_iff s = (is_valid_ref_sound s, is_valid_ref_complete s)
