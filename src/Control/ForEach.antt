-- ===== src/Control/ForEach.antt =====
-- operation/functioncallforeach.cpp: one call for each element of a list.
use building_programming_lan.Prelude.{
  ◌≡◌, Bool, true, false, none, some, List, [], ◌∷◌, ◌++◌, length, get_elem?, if◌then◌else◌, ltb,
}
use building_programming_lan.Outcome.{
  Outcome, ok, fault, divergence, out_of_range, bad_variant_access, null_dereference, ◌>>=◌,
}
use building_programming_lan.Value.{
  Value, callable, list, runtime_error, type_error, to_list, of_list, value, blocked,
  OperationResult,
}
use building_programming_lan.Bytes.{Bytes}
use building_programming_lan.Control.{
  ControlContext, Step, invoke, await_result, set_callable_invoked, set_callable_return,
}

-- The overloads of `_function_call_for_each`. Where the second argument is no list, the catch-all
-- overload stands below the visiting one, which therefore calls itself with the same value.
unfoldable pub start : ControlContext → Value → Value → Step
unfolding to_list
start ctx (callable t names h) (list args) = ok (
  record ctx {
    callable = some (callable t names h);
    arglist = some (to_list args);
    accumulator = some [];
  },
  invoke,
)
start ctx (callable t names h) args = fault divergence
start ctx f args = ok (ctx, value (runtime_error type_error))

-- A call has returned `v`.
unfoldable pub collect : ControlContext → Value → Step
unfolding of_list
collect ctx v = elim ctx.accumulator [
  | none ↦ fault null_dereference
  | some done ↦ elim ctx.arglist [
    | none ↦ fault null_dereference
    | some args ↦
        if ltb (length (done ++ v ∷ [])) (length args)
        then ok (
          record ctx {
            accumulator = some (done ++ v ∷ []);
            value = none;
            callable_invoked = false;
          },
          invoke,
        )
        else ok (
          record ctx { accumulator = some (done ++ v ∷ []) },
          value (list (of_list (done ++ v ∷ []))),
        )
  ]
]

unfoldable pub execute : ControlContext → Value → Value → Step
unfolding start collect
execute ctx f args = elim ctx.callable [
  | none ↦ start ctx f args
  | some c ↦ elim ctx.callable_invoked [
    | false ↦ ok (ctx, invoke)
    | true ↦ elim ctx.value [ some v ↦ collect ctx v | none ↦ ok (ctx, await_result) ]
  ]
]

-- `std::get<value::DynamicList>(element).values`
unfoldable pub element_arguments : Bool → Value → Outcome (List Value)
unfolding to_list
element_arguments true v = ok (v ∷ [])
element_arguments false (list vs) = ok (to_list vs)
element_arguments false v = fault bad_variant_access

unfoldable pub get_argument_list : Bool → ControlContext → Outcome (List Value)
unfolding element_arguments
get_argument_list single ctx = elim ctx.accumulator [
  | none ↦ fault null_dereference
  | some done ↦ elim ctx.arglist [
    | none ↦ fault null_dereference
    | some args ↦ elim (get_elem? args (length done)) [
      | none ↦ fault out_of_range
      | some v ↦ element_arguments single v
    ]
  ]
]

-- The interpreter's side: the k-th call gets the operation's argument list and returns the k-th value
-- of `results`. The outcome is the argument lists in order, with the operation's last result.
pub protocol :
    Bool
    → ControlContext
    → Value
    → Value
    → List Value
    → Outcome (List (List Value) × OperationResult)
protocol single ctx f args [] = ok ([], invoke)
protocol single ctx f args (r ∷ results) = get_argument_list single ctx >>= (λ a.
    execute (set_callable_return (set_callable_invoked ctx) r) f args >>= (λ s. elim s.1 [
      | value v ↦ ok (a ∷ [], value v)
      | blocked w ↦ protocol single s.0 f args results >>= (λ p. ok (a ∷ p.0, p.1))
    ]))

-- The context between two calls.
waiting : Value → List Value → List Value → ControlContext
waiting c xs done = record {
  callable = some c;
  value = none;
  arglist = some xs;
  accumulator = some done;
  callable_invoked = false;
  additional_info = none;
}

-- The arguments of the calls for the elements `vs`: the element itself where it is the single argument,
-- and otherwise its own elements, of a list.
unfoldable pub Passes : Bool → Value → List Value → Type 0
Passes true v a = a ≡ v ∷ []
Passes false v a = v ≡ list (of_list a)

unfoldable pub PassesAll : Bool → List Value → List (List Value) → Type 0
unfolding Passes
PassesAll single [] [] = Unit {0}
PassesAll single (v ∷ vs) (a ∷ calls) = Passes single v a × PassesAll single vs calls
PassesAll single _ _ = ⊥

finished : Value → List Value → List Value → Value → ControlContext
finished c xs done r = record (waiting c xs done) { value = some r; callable_invoked = true }
