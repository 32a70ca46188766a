-- ===== src/Client/Moves.antt =====
-- afmpkg/afmpkg-client.c: a buffer that has left `buffer0` does not come back.
use afb_app_manager.Base.{
  ◌+◌, ◌&&◌, Bool, false, not, List, [], ◌∷◌, Bytes, codes, Memory, alloc, length, ltb, ◌≡◌, refl,
  arith, Bool-cases, Option-cases, inl, inr,
}
use afb_app_manager.Client.{
  Client, Put, is_started, is_zero, or_else, grow_size, put_key_val_nl, put_key_val_nl_memo,
  mark_rootdir, mark_transid, mark_redpakid, operation_text, afmpkg_client_end,
  afmpkg_client_put_file, afmpkg_client_put_rootdir, afmpkg_client_put_transid,
  afmpkg_client_put_redpakid,
}
use afb_app_manager.Client.Composed.{
  Setting, file, rootdir, transid, redpakid, put_setting, put_settings,
}

-- The code is 0 and the buffer is `buffer0`.
abbrev pub is_done : Put → Bool
is_done (rc, c, m) = is_zero rc && not c.moved

-- What leaves the buffer in `buffer0` found it there.
abbrev pub Stays : (Memory → Client → Put) → Type 0
Stays f = (m : Memory) (c : Client) → (f m c).1.moved ≡ false → c.moved ≡ false

pub put_key_val_nl-Stays : (key val : Bytes) → Stays (λ m c. put_key_val_nl m c key val)
unfolding put_key_val_nl
put_key_val_nl-Stays key val m c h =
    let fpos = length c.buffer + 2 + length val + length key in
    elim (Bool-cases (is_started c.state)) [
      | inr e ↦ rw e at h
      | inl e ↦ elim (Bool-cases (ltb fpos c.size)) [
        | inl lt ↦ rw (e, lt) at h
        | inr ge ↦ elim (Option-cases (grow_size 65 fpos c.size)) [
          | inl n ↦ rw (e, ge, n) at h
          | inr (size, g) ↦ elim (Bool-cases ((alloc m).0)) [
            | inl r ↦ absurd (ground (arith, rw (e, ge, g, r) at h))
            | inr r ↦ rw (e, ge, g, r) at h
          ]
        ]
      ]
    ]

memo-Stays :
    (key val : Bytes) (already : Client → Bool) (mark : Client → Client)
    → ((c : Client) → (mark c).moved ≡ c.moved)
    → Stays (λ m c. put_key_val_nl_memo m c key val (already c) mark)
unfolding put_key_val_nl_memo
memo-Stays key val already mark k m c h =
    let p = put_key_val_nl m c key val in ground (arith, h, k p.1, put_key_val_nl-Stays key val m c)

pub or_else-Stays :
    (f g : Memory → Client → Put) → Stays f → Stays g → Stays (λ m c. or_else (f m c) g)
or_else-Stays f g p q m c h =
    let r = f m c in
    elim (Bool-cases (is_zero r.0)) [
      | inl e ↦ p m c (q r.2 r.1 (rw e at h))
      | inr e ↦ p m c (rw e at h)
    ]

pub put_setting-Stays : (t : Setting) → Stays (λ m c. put_setting m c t)
unfolding put_setting afmpkg_client_put_file afmpkg_client_put_rootdir afmpkg_client_put_transid
    afmpkg_client_put_redpakid
put_setting-Stays (file v) = put_key_val_nl-Stays (codes "FILE") v
put_setting-Stays (rootdir v) =
    memo-Stays (codes "ROOT") v (λ c. c.rootdir_put) mark_rootdir (λ c. refl)
put_setting-Stays (transid v) =
    memo-Stays (codes "TRANSID") v (λ c. c.transid_put) mark_transid (λ c. refl)
put_setting-Stays (redpakid v) =
    memo-Stays (codes "REDPAKID") v (λ c. c.redpakid_put) mark_redpakid (λ c. refl)

pub put_settings-Stays : (ts : List Setting) → Stays (λ m c. put_settings m c ts)
unfolding put_settings
put_settings-Stays [] m c h = h
put_settings-Stays (t ∷ ts) m c h =
    or_else-Stays (λ m c. put_setting m c t) (λ m c. put_settings m c ts) (put_setting-Stays t)
      (put_settings-Stays ts) m c h

pub end-Stays : Stays afmpkg_client_end
unfolding afmpkg_client_end
end-Stays m c h = put_key_val_nl-Stays (codes "END") (operation_text c.operation) m c h
