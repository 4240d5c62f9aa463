-- ===== src/Api/Relay.antt =====
-- What a client of the store daemon is told of a call that a learner has carried out.
use mathlib.Core.Path.{subst}
use rangexx.Base.{
  ℕ, ◌≡◌, refl, sym, ap, ◌∙◌, Bool, true, false, ◌||◌, Option, some, List, [], ◌∷◌, ◌++◌, Str,
  str_eq, str_eq_refl, arith,
}
use rangexx.Base.Results.{Result, ok, err, Kind}
use rangexx.Paxos.Message.{Request, Ack}
use rangexx.Api.Names.{first_of, first_of-append}
use rangexx.Api.Backend.{Backend}
use rangexx.Api.Requests.{Client, lookup, error_code, process_ack}
use rangexx.Api.Calls.{Call, method_of, args_of, Handler, perform, write_api_symtable}
use rangexx.Api.Dispatch.{outcome_ack, only_if, handled, learn, table_lem}
use rangexx.Api.Coded.{is_coded, is_fuel, CodedOrOut, ThrownSpec-CodedOrOut}
use rangexx.Api.Thrown.{local, thrown_lem}

abbrev pub Ended : Result Bool → Type 0
Ended (ok x) = Unit
Ended (err e) = is_fuel e.kind ≡ false

-- An answer goes out, which a client in a state of this type reads as the result.
pub record Tells (T : Type 0) (r : Result Bool) (o : Option Ack) : Type 0 where
  pub ack : Ack
  pub sent : o ≡ some ack
  pub read : (t : T) → process_ack ack t ≡ (r, t)

module _ {T : Type 0} where
  told : (req : Request) (r : Result Bool) → CodedOrOut r → Ended r → Tells T r (outcome_ack req r)
  unfolding outcome_ack process_ack error_code
  told req (ok true) h k = record { ack = _; sent = refl; read = λ t. refl }
  told req (ok false) h k = record { ack = _; sent = refl; read = λ t. refl }
  told req (err e) h k = by_kind e.kind e.what h k
    where
      by_kind :
          (kind : Kind) (what : Str)
          → (is_coded kind || is_fuel kind) ≡ true
          → is_fuel kind ≡ false
          → Tells T
              (err (record { kind = kind; what = what }))
              (outcome_ack req (err (record { kind = kind; what = what })))
      by_kind Kind.create_node what h k = record { ack = _; sent = refl; read = λ t. refl }
      by_kind Kind.edge_not_found what h k = record { ack = _; sent = refl; read = λ t. refl }
      by_kind Kind.incorrect_node_type what h k = record { ack = _; sent = refl; read = λ t. refl }
      by_kind Kind.invalid_environment what h k = record { ack = _; sent = refl; read = λ t. refl }
      by_kind Kind.node_exists what h k = record { ack = _; sent = refl; read = λ t. refl }
      by_kind Kind.node_not_found what h k = record { ack = _; sent = refl; read = λ t. refl }
      by_kind _ what h k = absurd (ground (arith, h, k))

-- The client of this id waits at the daemon of this node.
abbrev pub IsOf : Str → Str → Type 0
IsOf node_id client_id = (rest : Str) × (client_id ≡ (node_id ++ 124 ∷ []) ++ rest)

module _ {S V : Type 0} (b : Backend S V) (c : Client) (fuel : ℕ) (T : Type 0) where
  -- A request that names a call, and comes from a client of the node, is answered after the call has
  -- been carried out, and the state is then what the call leaves. The client reads the answer as the
  -- result of the call: the same value, or an exception of the same class with the same text. That
  -- the call does not end for lack of fuel is assumed.
  pub relay_lem :
      (call : Call) (req : Request) (node_id : Str) (unset : Bool) (s : S)
      → req.method ≡ method_of call
      → req.args ≡ args_of call
      → IsOf node_id req.client_id
      → Ended (perform b (local c) fuel call req.proposer_id s).0
      → Tells T
          (perform b (local c) fuel call req.proposer_id s).0
          (learn b (local c) fuel node_id unset req s).0
        × ((learn b (local c) fuel node_id unset req s).1
            ≡ (perform b (local c) fuel call req.proposer_id s).1)
  unfolding learn
  relay_lem call req node_id unset s m a (rest, of) ended = (
    subst (Tells T (perform b (local c) fuel call req.proposer_id s).0) (sym sent_eq) (
        told req (perform b (local c) fuel call req.proposer_id s).0
          (ThrownSpec-CodedOrOut call (perform b (local c) fuel call req.proposer_id s).0
            (thrown_lem b c fuel call req.proposer_id s))
          ended),
    ap (λ (rs : Result Bool × S). rs.1) run_eq,
  )
    where
      bar : Str
      bar = node_id ++ 124 ∷ []

      table : List (Str × Handler S)
      table = write_api_symtable b (local c) fuel

      run_eq :
          handled b (local c) fuel (lookup req.method table) unset req s
          ≡ perform b (local c) fuel call req.proposer_id s
      run_eq =
          let (handler, (found, same)) = table_lem b (local c) fuel call in
          ap (λ o. handled b (local c) fuel o unset req s) (ap (λ n. lookup n table) m ∙ found)
          ∙ ap (λ xs. handler xs req.proposer_id s) a
          ∙ ap (λ f. f req.proposer_id s) same

      mine : str_eq (first_of bar req.client_id) bar ≡ true
      mine =
          ap (λ t. str_eq (first_of bar t) bar) of
          ∙ ap (λ t. str_eq t bar) (first_of-append bar rest)
          ∙ str_eq_refl bar

      sent_eq :
          (learn b (local c) fuel node_id unset req s).0
          ≡ outcome_ack req (perform b (local c) fuel call req.proposer_id s).0
      sent_eq =
          ap
            (λ t.
              only_if t (
                outcome_ack req (handled b (local c) fuel (lookup req.method table) unset req s).0))
            mine
          ∙ ap (λ (rs : Result Bool × S). outcome_ack req rs.0) run_eq
