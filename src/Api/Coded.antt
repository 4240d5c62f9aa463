-- ===== src/Api/Coded.antt =====
-- Which exceptions a call that is carried out may end with.
use rangexx.Base.{◌||◌, ◌≡◌, Bool, true, false, arith}
use rangexx.Base.Results.{Result, ok, err, Kind}
use rangexx.Api.Calls.{Two, Call, call_one, call_two, call_three, call_four}

-- The exceptions that have a code of their own in an answer.
abbrev pub is_coded : Kind → Bool
is_coded Kind.create_node = true
is_coded Kind.edge_not_found = true
is_coded Kind.incorrect_node_type = true
is_coded Kind.invalid_environment = true
is_coded Kind.node_exists = true
is_coded Kind.node_not_found = true
is_coded _ = false

abbrev pub Coded : {A : Type 0} → Result A → Type 0
Coded (ok a) = Unit
Coded (err e) = is_coded e.kind ≡ true

abbrev pub is_fuel : Kind → Bool
is_fuel Kind.out_of_fuel = true
is_fuel _ = false

abbrev pub CodedOrOut : {A : Type 0} → Result A → Type 0
CodedOrOut (ok a) = Unit
CodedOrOut (err e) = (is_coded e.kind || is_fuel e.kind) ≡ true

pub Coded-CodedOrOut : {A : Type 0} (r : Result A) → Coded r → CodedOrOut r
Coded-CodedOrOut (ok a) h = tt
Coded-CodedOrOut (err e) h = ground (arith, h)

-- Only `remove_host` searches the graph.
abbrev pub ThrownSpec : Call → Result Bool → Type 0
ThrownSpec (call_two Two.remove_host x y) r = CodedOrOut r
ThrownSpec _ r = Coded r

pub ThrownSpec-CodedOrOut : (call : Call) (r : Result Bool) → ThrownSpec call r → CodedOrOut r
ThrownSpec-CodedOrOut (call_one f x) r h = Coded-CodedOrOut r h
ThrownSpec-CodedOrOut (call_two Two.add_cluster_to_env x y) r h = Coded-CodedOrOut r h
ThrownSpec-CodedOrOut (call_two Two.remove_cluster_from_env x y) r h = Coded-CodedOrOut r h
ThrownSpec-CodedOrOut (call_two Two.remove_cluster x y) r h = Coded-CodedOrOut r h
ThrownSpec-CodedOrOut (call_two Two.remove_host x y) r h = h
ThrownSpec-CodedOrOut (call_three f x y z) r h = Coded-CodedOrOut r h
ThrownSpec-CodedOrOut (call_four f w x y z) r h = Coded-CodedOrOut r h
