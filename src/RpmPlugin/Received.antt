-- ===== src/RpmPlugin/Received.antt =====
-- rpm-plugin/redpesk.c with afmpkg/afmpkg-client.c and afmpkg/afmpkg-server.c: what the installer hears of
-- the requests of a transaction.
use mathlib.Core.Path.{subst, sym}
use afb_app_manager.Base.{
  ℕ, suc, ◌+◌, ◌≤◌, false, Bool, Memory, ◌++◌, List, [], ◌∷◌, pos, All, length, ◌≡◌, refl, arith,
  Bool-cases, inl, inr,
}
use afb_app_manager.Client.{Client, Operation, Put}
use afb_app_manager.Client.Composed.{IsValue, value_of, begun, with_settings, compose}
use afb_app_manager.Client.Served.{receive-compose}
use afb_app_manager.Request.{initial, ready}
use afb_app_manager.Request.Receive.{receive, got}
use afb_app_manager.RpmPlugin.{
  tr_removed, is_type, operation_of, record_elements, numbered, Element, Transaction, Record,
  Plugin, settings_of, make_message,
}
use afb_app_manager.RpmPlugin.Numbered.{removes, adds, numbered_all, with_index}
use afb_app_manager.RpmPlugin.Sent.{
  kept_onto, kept_onto-IsKept, record_elements-kept, numbered-numbered_all,
}
use afb_app_manager.RpmPlugin.Transacted.{removes-adds}

abbrev IsBetween : ℕ → ℕ → Type 0
IsBetween n i = (1 ≤ i) × (i ≤ n)

-- What a client composes for a record, in its first buffer.
abbrev pub composed : {S : Type 0} → Plugin S → Transaction → Client → Operation → Record → Put
composed plugin t client operation r = make_message plugin t [] client r operation

module _ {S : Type 0} (plugin : Plugin S) (t : Transaction) where
  -- The composition of a request succeeds, in the first buffer, and its values have neither a newline nor a
  -- 0.
  pub record IsComposed (client : Client) (operation : Operation) (r : Record) : Type 0 where
    pub name_value : IsValue r.te.name
    pub setting_values : All (λ s. IsValue (value_of s)) (settings_of plugin t r.te)
    pub succeeded : (composed plugin t client operation r).0 ≡ pos 0
    pub stayed : (composed plugin t client operation r).1.moved ≡ false

  -- The server that receives the text has the request that is meant, ready to be processed.
  abbrev pub IsHeard : ℕ → Client → Operation → Record → Type 0
  IsHeard n client operation r =
      receive [] initial [] (got (composed plugin t client operation r).1.buffer ∷ []) ≡ record {
        rc = pos 0;
        request =
            record (with_settings (begun operation r.te.name r.index n)
              (settings_of plugin t r.te)) { state = ready };
        kept = [];
        memory = [];
      }

  record-IsHeard :
      (n : ℕ) (client : Client) (operation : Operation) (r : Record)
      → n ≤ 2147483647
      → r.count ≡ n
      → IsBetween n r.index
      → IsComposed client operation r
      → IsHeard n client operation r
  unfolding make_message compose
  record-IsHeard n client operation r small c (low, high) v =
      subst (λ k. IsHeard k client operation r) c
        (receive-compose client operation r.te.name r.index r.count (settings_of plugin t r.te)
          v.name_value low (omega (arith, c)) (omega (arith, c)) v.setting_values v.succeeded
          v.stayed)

  -- The operation of the request of a record.
  abbrev pub operation_of_record : Record → Operation
  operation_of_record r = operation_of plugin t r.te.type t.test

  abbrev pub AllComposed : Client → List Record → Type 0
  AllComposed client rs = All (λ r. IsComposed client (operation_of_record r) r) rs

  abbrev pub AllHeard : Client → ℕ → List Record → Type 0
  AllHeard client n rs = All (λ r. IsHeard n client (operation_of_record r) r) rs

  numbered_all-AllHeard :
      (client : Client) (n : ℕ)
      → n ≤ 2147483647
      → (es : List Element) (i j : ℕ) → i + removes es ≤ n
      → j + adds t.ts n es ≤ n
      → AllComposed client (numbered_all t.ts n i j es ++ [])
      → AllHeard client n (numbered_all t.ts n i j es ++ [])
  unfolding numbered_all
  numbered_all-AllHeard client n small [] i j = λ h k v. tt
  numbered_all-AllHeard client n small (e ∷ es) i j =
      elim (Bool-cases (is_type e.type tr_removed)) [
        | inl r ↦ rw r (λ h k v. (
          record-IsHeard n client (operation_of plugin t e.type t.test)
              (with_index t.ts n (suc i) e) small refl (omega arith, omega (arith, h)) v.0,
          numbered_all-AllHeard client n small es (suc i) j (omega (arith, h)) k v.1,
        ))
        | inr r ↦ rw r (λ h k v. (
          record-IsHeard n client (operation_of plugin t e.type t.test)
              (with_index t.ts n (suc j) e) small refl (omega arith, omega (arith, k)) v.0,
          numbered_all-AllHeard client n small es i (suc j) h (omega (arith, k)) v.1,
        ))
      ]

  abbrev AllReceived : Client → Bool × List Record × ℕ × Memory → Type 0
  AllReceived client (done, rs, n, m) =
      n ≤ 2147483647
      → AllComposed client (numbered plugin t rs n)
      → AllHeard client n (numbered plugin t rs n)

  -- Of a transaction with at most INT_MAX elements that are added or removed, recorded with memory at hand
  -- and with no record before: where the composition of every request succeeds in the first buffer, and
  -- their values have neither a newline nor a 0, each request is received by the server, in one piece and
  -- with memory at hand, as it is meant: with its operation, its number, and as its count the number of
  -- these elements.
  pub numbered-AllHeard :
      (client : Client)
      → let (done, rs, n, m) = record_elements plugin t [] t.elements [] 0 in
        n ≤ 2147483647
        → AllComposed client (numbered plugin t rs n)
        → AllHeard client n (numbered plugin t rs n)
  numbered-AllHeard client =
      let es = kept_onto plugin t t.elements [] in
      let n = length es in
      let k = kept_onto-IsKept plugin t t.elements [] tt in
      subst (AllReceived client) (sym (record_elements-kept plugin t t.elements [] [])) (λ small.
        rw (numbered-numbered_all plugin t es [] n k tt) (
          numbered_all-AllHeard client n small es 0 (removes es)
            (omega (arith, removes-adds plugin t es n))
            (omega (arith, removes-adds plugin t es n))))
