-- ===== src/Framing/RoundTrip.antt =====
-- common/wire.hpp: what `Writer` writes, `Reader` reads back, for any sequence of typed calls.
use vulkan_remote.Base.{
  ℕ, ◌+◌, ◌-◌, ◌^◌, ◌%◌, ◌≤◌, ◌<◌, ◌≡◌, refl, sym, ap, ◌∙◌, false, some, List, [], ◌∷◌, ◌++◌,
  append-nil, append_assoc, arith, subst, map,
}
use vulkan_remote.Base.Lists.{
  length, take, drop, length-append, length-drop, drop-add, take-length_append, drop-length_append,
  take_all, All,
}
use vulkan_remote.Base.Bytes.{le_bytes, of_le, length-le_bytes, of_le-take}
use vulkan_remote.Base.Words.{to_u32, to_u32-lt, of_u32-to_u32}
use vulkan_remote.Framing.{
  Writer, Reader, raw, put_u32, put_u64, put_i32, put_f32, put_handle, put_bytes, put_string, read,
  get_u32, get_u64, get_i32, get_f32, get_handle, get_bytes, get_string, remaining, new_writer,
  new_reader,
}
use vulkan_remote.Framing.Fields.{
  Field, Kind, kind, IsTyped, put, get, encoding, put_all, encodings, get_all, cons_field,
}

-- The reader has not failed, and `rest` is what it has not read.
pub record Unread (r : Reader) (rest : List ℕ) : Type 0 where
  pub sound : r.m_failed ≡ false
  pub sized : r.m_size ≡ length r.m_data
  pub within : r.m_pos ≤ r.m_size
  pub ahead : drop r.m_pos r.m_data ≡ rest

-- `n` bytes on.
pub skip-Unread :
    (r : Reader) (front rest : List ℕ)
    → Unread r (front ++ rest)
    → Unread (record r { m_pos = r.m_pos + length front }) rest
skip-Unread r front rest u = record {
  sound = u.sound;
  sized = u.sized;
  within = omega (arith, fits);
  ahead =
      drop-add r.m_pos (length front) r.m_data
      ∙ ap (drop (length front)) u.ahead
      ∙ drop-length_append front rest;
}
  where
    fits : length r.m_data - r.m_pos ≡ length front + length rest
    fits = sym (length-drop r.m_pos r.m_data) ∙ ap length u.ahead ∙ length-append front rest

fits-Unread :
    (r : Reader) (front rest : List ℕ)
    → Unread r (front ++ rest)
    → r.m_pos + length front ≤ r.m_size
fits-Unread r front rest u =
    omega (arith, u, length-drop r.m_pos r.m_data, ap length u.ahead, length-append front rest)

read-Unread :
    (w v : ℕ) (r : Reader) (rest : List ℕ)
    → v < 256 ^ w
    → Unread r (le_bytes w v ++ rest)
    → read w r ≡ (v, record r { m_pos = r.m_pos + w })
unfolding read
read-Unread w v r rest h u = ground (
  arith,
  u,
  ap (λ l. of_le (take w l)) u.ahead,
  of_le-take w v rest h,
  fits-Unread r (le_bytes w v) rest u,
  length-le_bytes w v,
)

after-Unread :
    (w v : ℕ) (r : Reader) (rest : List ℕ)
    → Unread r (le_bytes w v ++ rest)
    → Unread (record r { m_pos = r.m_pos + w }) rest
after-Unread w v r rest u =
    subst (λ k. Unread (record r { m_pos = r.m_pos + k }) rest) (length-le_bytes w v)
      (skip-Unread r (le_bytes w v) rest u)

-- The reader after one field.
abbrev pub past : Reader → Field → Reader
past r f = record r { m_pos = r.m_pos + length (encoding f) }

pub get_bytes-Unread :
    (limit : ℕ) (r : Reader) (v rest : List ℕ)
    → length v ≤ limit
    → limit < 2 ^ 32
    → Unread r (le_bytes 4 (length v) ++ (v ++ rest))
    → get_bytes limit r ≡ (some v, record r { m_pos = r.m_pos + 4 + length v })
unfolding get_bytes
get_bytes-Unread limit r v rest h l u =
    let u' = after-Unread 4 (length v) r (v ++ rest) u in
    rw (read-Unread 4 (length v) r (v ++ rest) (omega (arith, h, l)) u) (
      ground (
        arith,
        h,
        u',
        fits-Unread (record r { m_pos = r.m_pos + 4 }) v rest u',
        ap (take (length v)) u'.ahead,
        take-length_append v rest,
      ))

raw-le_bytes : (w : Writer) (k v : ℕ) → (raw w (le_bytes k v) k).m_data ≡ w.m_data ++ le_bytes k v
unfolding raw
raw-le_bytes w k v =
    ap (◌++◌ w.m_data) (take_all k (le_bytes k v) (omega (arith, length-le_bytes k v)))

put_bytes_lem :
    (w : Writer) (v : List ℕ)
    → length v < 2 ^ 32
    → (put_bytes w v (length v)).m_data ≡ w.m_data ++ (le_bytes 4 (length v) ++ v)
unfolding put_bytes
put_bytes_lem w v h =
    let n : ℕ = length v in
    ground (
      arith,
      raw-le_bytes w 4 (n % 2 ^ 32),
      ap (λ (k : ℕ). le_bytes 4 k) small,
      take_all n v (omega arith),
      nothing v,
      append-nil (w.m_data ++ le_bytes 4 n),
      append_assoc w.m_data (le_bytes 4 n) v,
    )
  where
    small : length v % 2 ^ 32 ≡ length v
    small = omega arith

    nothing : (v : List ℕ) → length v ≡ 0 → v ≡ []
    nothing [] e = refl
    nothing (c ∷ v) e = absurd (omega arith)

put_lem : (w : Writer) (f : Field) → IsTyped f → (put w f).m_data ≡ w.m_data ++ encoding f
unfolding put put_u32 put_u64 put_i32 put_f32 put_handle put_string
put_lem w (Field.u32 v) h = raw-le_bytes w 4 v
put_lem w (Field.u64 v) h = raw-le_bytes w 8 v
put_lem w (Field.f32 v) h = raw-le_bytes w 4 v
put_lem w (Field.handle v) h = raw-le_bytes w 8 v
put_lem w (Field.i32 v) h = raw-le_bytes w 4 (to_u32 v)
put_lem w (Field.bytes v) h = put_bytes_lem w v h
put_lem w (Field.string v) h = rw h.1 (put_bytes_lem w v h.0)

blob_past :
    (r : Reader) (v : List ℕ)
    → (r.m_pos + 4) + length v ≡ r.m_pos + length (le_bytes 4 (length v) ++ v)
blob_past r v = omega (arith, length-append (le_bytes 4 (length v)) v, length-le_bytes 4 (length v))

get_blob :
    (r : Reader) (v rest : List ℕ)
    → length v < 2 ^ 32
    → Unread r ((le_bytes 4 (length v) ++ v) ++ rest)
    → get_bytes (2 ^ 32 - 1) r
      ≡ (some v, record r { m_pos = r.m_pos + length (le_bytes 4 (length v) ++ v) })
get_blob r v rest h u =
    get_bytes-Unread (2 ^ 32 - 1) r v rest (omega (arith, h)) (omega arith)
      (subst (Unread r) (append_assoc (le_bytes 4 (length v)) v rest) u)
    ∙ ap (λ k. (some v, record r { m_pos = k })) (blob_past r v)

pub read_past :
    (w v : ℕ) (r : Reader) (rest : List ℕ)
    → v < 256 ^ w
    → Unread r (le_bytes w v ++ rest)
    → read w r ≡ (v, record r { m_pos = r.m_pos + length (le_bytes w v) })
read_past w v r rest h u =
    read-Unread w v r rest h u
    ∙ ap (λ k. (v, record r { m_pos = r.m_pos + k })) (sym (length-le_bytes w v))

get_lem :
    (r : Reader) (f : Field) (rest : List ℕ)
    → IsTyped f
    → Unread r (encoding f ++ rest)
    → get (kind f) r ≡ (some f, past r f)
unfolding get get_u32 get_u64 get_i32 get_f32 get_handle get_string
get_lem r (Field.u32 v) rest h u = rw (read_past 4 v r rest h u)
get_lem r (Field.u64 v) rest h u = rw (read_past 8 v r rest h u)
get_lem r (Field.f32 v) rest h u = rw (read_past 4 v r rest h u)
get_lem r (Field.handle v) rest h u = rw (read_past 8 v r rest h u)
get_lem r (Field.i32 v) rest h u =
    rw (read_past 4 (to_u32 v) r rest (to_u32-lt v) u, of_u32-to_u32 v h)
get_lem r (Field.bytes v) rest h u = rw (get_blob r v rest h u)
get_lem r (Field.string v) rest h u = rw (get_blob r v rest h.0 u)

pub put_all_lem :
    (w : Writer) (fs : List Field)
    → All IsTyped fs
    → (put_all w fs).m_data ≡ w.m_data ++ encodings fs
put_all_lem w [] h = sym (append-nil w.m_data)
put_all_lem w (f ∷ fs) (hf, hs) =
    put_all_lem (put w f) fs hs
    ∙ ap (λ l. l ++ encodings fs) (put_lem w f hf)
    ∙ append_assoc w.m_data (encoding f) (encodings fs)

get_all_step :
    (r r' : Reader) (k : Kind) (f : Field) (ks : List Kind)
    → get k r ≡ (some f, r')
    → get_all (k ∷ ks) r ≡ cons_field f (get_all ks r')
get_all_step r r' k f ks e = rw (e, get_all) (ap (λ p. cons_field f (get_all ks p.1)) e)

get_all_lem :
    (r : Reader) (fs : List Field) (rest : List ℕ)
    → All IsTyped fs
    → Unread r (encodings fs ++ rest)
    → (r' : Reader) × (get_all (map kind fs) r ≡ (some fs, r')) × Unread r' rest
get_all_lem r [] rest h u = (r, refl, u)
get_all_lem r (f ∷ fs) rest (hf, hs) u =
    let u' = subst (Unread r) (append_assoc (encoding f) (encodings fs) rest) u in
    let (r', e, v) =
      get_all_lem (past r f) fs rest hs (skip-Unread r (encoding f) (encodings fs ++ rest) u') in
    (
      r',
      get_all_step r _ (kind f) f (map kind fs) (get_lem r f (encodings fs ++ rest) hf u')
          ∙ ap (cons_field f) e,
      v,
    )

-- Whatever typed values a `Writer` appends, a `Reader` that makes the matching calls over those
-- bytes, with any further bytes behind them, returns the same values in order, has not failed, and
-- has exactly the further bytes left.
pub get_all-put_all :
    (fs : List Field) (more : List ℕ)
    → All IsTyped fs
    → let sent = (put_all new_writer fs).m_data in
      (r' : Reader) × (get_all (map kind fs) (new_reader (sent ++ more) (length (sent ++ more)))
        ≡ (some fs, r'))
      × (r'.m_failed ≡ false)
      × (remaining r' ≡ length more)
unfolding remaining
get_all-put_all fs more h =
    let sent = (put_all new_writer fs).m_data in
    let start : Unread (new_reader (sent ++ more) (length (sent ++ more))) (encodings fs ++ more) =
      record {
        sound = refl;
        sized = refl;
        within = omega arith;
        ahead = ap (λ l. l ++ more) (put_all_lem new_writer fs h);
      } in
    let (r', e, u) = get_all_lem _ fs more h start in
    (
      r',
      e,
      u.sound,
      rw u.sound (omega (arith, u, length-drop r'.m_pos r'.m_data, ap length u.ahead)),
    )
