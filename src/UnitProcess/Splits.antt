-- ===== src/UnitProcess/Splits.antt =====
-- units/unit-process.c: `corpus_split` ends.
use afb_app_manager.Base.{
  ℕ, zero, suc, ◌≤◌, ◌<◌, true, Option, none, some, [], Bytes, codes, length, ltb, is_some, alloc,
  pos, Memory, ◌≡◌, refl, arith, Bool-cases, Option-cases, inl, inr,
}
use afb_app_manager.UnitProcess.{matches, offset}
use afb_app_manager.UnitProcess.Matching.{length-matches, length-offset_from, some_ne}
use afb_app_manager.UnitProcess.Corpus.{
  begins_again, Split, unit_tag, between, extract, split_step, split_loop, corpus_split,
}

extract_shorter :
    (s : Split) (spec t next : Bytes) → (extract s spec t).0 ≡ some next → length next ≤ length t
unfolding extract
extract_shorter s spec t next e = elim (Option-cases (matches unit_tag t)) [
  | inl m ↦ ground (arith, rw (m, extract) at e)
  | inr (b, m) ↦ elim (Bool-cases ((alloc s.memory).0)) [
    | inl r ↦ ground (arith, rw (m, r, extract) at e, length-matches unit_tag t b m)
    | inr r ↦ absurd (some_ne (rw (m, r, extract) at e))
  ]
]

-- A round leaves less of the corpus.
split_step_shorter :
    (corpus : Bytes) (s : Split) (next : Bytes)
    → (split_step corpus s).0 ≡ some next
    → length next < length corpus
unfolding split_step
split_step_shorter corpus s next e =
    let begin = codes "%begin " in
    let stop = codes "%end " in
    elim (Option-cases (offset corpus begin)) [
      | inl b ↦ elim (Option-cases (offset corpus stop)) [
        | inl f ↦ absurd (some_ne (rw (b, f, split_step) at e))
        | inr (x, f) ↦ absurd (some_ne (rw (b, f, split_step) at e))
      ]
      | inr ((befbeg, beg), b) ↦ elim (Option-cases (offset corpus stop)) [
        | inl f ↦ absurd (some_ne (rw (b, f, split_step) at e))
        | inr ((end, aftend), f) ↦
            let short =
              length-offset_from true b'%' (codes "end ") corpus end aftend (omega arith)
                (omega arith) f in
            elim (Bool-cases (ltb (length befbeg) (length end))) [
              | inl l ↦ absurd (some_ne (rw (b, f, l, split_step) at e))
              | inr l ↦ elim (Bool-cases (begins_again beg end)) [
                | inl g ↦ absurd (some_ne (rw (b, f, l, g, split_step) at e))
                | inr g ↦ elim (Option-cases (matches unit_tag (between beg end))) [
                  | inl t ↦ ground (arith, rw (b, f, l, g, t, split_step) at e, short)
                  | inr (spec, t) ↦ omega (
                    arith,
                    extract_shorter s spec aftend next (rw (b, f, l, g, t, split_step) at e),
                    short,
                  )
                ]
              ]
            ]
      ]
    ]

split_loop_total :
    (fuel : ℕ) (corpus : Option Bytes) (s : Split)
    → ((c : Bytes) → corpus ≡ some c → length c < fuel)
    → is_some (split_loop fuel corpus s) ≡ true
unfolding split_loop
split_loop_total fuel none s h = refl
split_loop_total zero (some c) s h = absurd (omega (arith, h c refl))
split_loop_total (suc fuel) (some c) s h =
    split_loop_total fuel (split_step c s).0 (split_step c s).1
      (λ d e. omega (arith, split_step_shorter c s d e, h c refl))

-- Whatever the corpus and the memory, the loop ends: a round for each byte and two more are enough.
pub corpus_split_total : (m : Memory) (corpus : Bytes) → is_some (corpus_split m corpus) ≡ true
unfolding corpus_split
corpus_split_total m corpus =
    let s : Split = record { rc = pos 0; units = []; memory = m } in
    let h =
      split_loop_total (suc (suc (length corpus))) (some corpus) s (λ c e. ground (arith, e)) in
    elim (Option-cases (split_loop (suc (suc (length corpus))) (some corpus) s)) [
      | inl n ↦ absurd (ground (arith, rw n at h))
      | inr (r, n) ↦ rw (n, is_some) refl
    ]
