-- ===== src/Client/Growth.antt =====
-- afmpkg/afmpkg-client.c: the buffer of the client grows to what a line needs.
use mathlib.Core.List.{append_assoc}
use afb_app_manager.Base.{
  ℕ, zero, suc, ◌+◌, ◌*◌, ◌%◌, ◌≤◌, ◌<◌, ◌||◌, true, false, some, [], ◌∷◌, ◌++◌, Bytes, pos, length,
  ltb, if◌then◌else◌, ◌≡◌, refl, arith, Bool-cases, inl, inr,
}
use afb_app_manager.Client.{Client, started, stale, put_key_val_nl, grow_size}

-- A size doubled so many times.
abbrev doubled : ℕ → ℕ → ℕ
doubled zero size = size
doubled (suc k) size = doubled k (size * 2)

grow_size-doubled :
    (k fpos size : ℕ)
    → fpos < 9223372036854775808
    → fpos < doubled k size
    → (n : ℕ) × (grow_size (suc k) fpos size ≡ some n) × (fpos < n)
unfolding grow_size
grow_size-doubled zero fpos size b h =
    let e : ltb fpos size ≡ true = ground arith in (size, rw e refl, h)
grow_size-doubled (suc k) fpos size b h = elim (Bool-cases (ltb fpos size)) [
  | inl e ↦ (size, rw e refl, ground (arith, e))
  | inr e ↦
      let ge : size ≤ fpos = ground (arith, e) in
      let next : size * 2 % 18446744073709551616 ≡ size * 2 = omega arith in
      let up : ltb (size * 2) size ≡ false = ground arith in
      let (n, g, lt) = grow_size-doubled k fpos (size * 2) b h in (n, rw (e, next, up) g, lt)
]

doubled_mono : (k a b : ℕ) → a ≤ b → doubled k a ≤ doubled k b
doubled_mono zero a b h = h
doubled_mono (suc k) a b h = doubled_mono k (a * 2) (b * 2) (omega arith)

-- In a request that is started, with memory at hand, a buffer of at least one byte and an end of the
-- text below 2 ^ 63, a line is written: the code is 0, there is room for the text and a 0, and the
-- line stands behind the text of before, or, where the line does not fit in the first buffer of the
-- client, behind as many bytes of the new block, to which that text is not copied.
pub put_key_val_nl-started :
    (c : Client) (key val : Bytes)
    → c.state ≡ started
    → 1 ≤ c.size
    → length c.buffer + 2 + length val + length key < 9223372036854775808
    → ((put_key_val_nl [] c key val).0 ≡ pos 0)
      × ((put_key_val_nl [] c key val).1.buffer
          ≡ (if ltb (length c.buffer + 2 + length val + length key) c.size || c.moved
              then c.buffer
              else stale c.heap (length c.buffer))
            ++ (key ++ (b' ' ∷ (val ++ b'\n' ∷ []))))
      × (length c.buffer + 2 + length val + length key < (put_key_val_nl [] c key val).1.size)
unfolding put_key_val_nl
put_key_val_nl-started c key val st one b =
    let fpos = length c.buffer + 2 + length val + length key in
    elim (Bool-cases (ltb fpos c.size)) [
      | inl e ↦ rw (st, e) (refl, rw append_assoc refl, ground (arith, e))
      | inr e ↦
          let (n, g, lt) =
            grow_size-doubled 64 fpos c.size b (omega (arith, doubled_mono 64 1 c.size one)) in
          rw (st, e, g) (refl, rw append_assoc refl, lt)
    ]
