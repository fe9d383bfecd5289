-- ===== src/Runtime/Errors.antt =====
-- oplr/src/EN_ERROR.CPP: what the runtime does at an error. A trapped statement goes on behind it;
-- else the procedures are left one by one, up to one that has set ONERR, or that EVAL is running
-- in. What is noted for the report of an error that nobody handles is left out.
use opl_dev.Prelude.{
  ℕ, List, [], ◌∷◌, ◌++◌, ◌≡◌, refl, Bool, true, false, Option, none, some, ltb, if◌then◌else◌,
}
use opl_dev.Prelude.Outcome.{Outcome, ok, panic, no_frame, Returns}

-- Of a CFrame: EvalNestCount, OnErrIP, StackPtr, and the caller's IP, which its destructor sets.
pub record CallFrame : Type 0 where
  pub eval_nest_count : ℕ
  pub on_err_ip : Option ℕ
  pub stack_ptr : ℕ
  pub caller_ip : ℕ

-- Of COplRuntime: the frames from iFrame to its callers, IP, iTrap, KErrBufferCurrent, and the
-- stack's pointer.
pub record Runtime : Type 0 where
  pub frames : List CallFrame
  pub ip : ℕ
  pub trap : Bool
  pub buffer_current : Bool
  pub stack_ptr : ℕ

-- `ClearError(CFrame*)`
abbrev pub clear_error : CallFrame → Runtime → Runtime
clear_error f r = record r { stack_ptr = f.stack_ptr; trap = false; buffer_current = false }

-- `SetErrorBuffer`, of which the flag is kept here
abbrev pub set_error_buffer : Runtime → Runtime
set_error_buffer r = record r { buffer_current = true }

-- What ErrorHandler does with a frame that has no eval: `rest` is the next round.
abbrev pub at_frame : Option ℕ → CallFrame → Runtime → Bool × Runtime → Bool × Runtime
at_frame none f r rest = rest
at_frame (some a) f r rest = (false, clear_error f (record r { ip = a }))

-- The loop of ErrorHandler over the frames: true says that the error was not handled.
unfoldable pub find_handler : List CallFrame → Runtime → Bool × Runtime
find_handler [] r = (true, record r { frames = [] })
find_handler (f ∷ fs) r =
    let here = record r { frames = f ∷ fs } in
    let rest = find_handler fs (record r { ip = f.caller_ip }) in
    if ltb 0 f.eval_nest_count then (true, here) else at_frame f.on_err_ip f here rest

-- `ErrorHandler`
unfoldable pub error_handler : Runtime → Outcome (Bool × Runtime)
unfolding find_handler
error_handler r =
    let r₁ = if r.buffer_current then r else set_error_buffer r in
    elim r.frames [
      | [] ↦ panic no_frame
      | f ∷ fs ↦ if r.trap then ok (false, clear_error f r₁) else ok (find_handler (f ∷ fs) r₁)
    ]

-- Procedures that do not handle errors, and in which there is no EVAL
abbrev pub AllPass : List CallFrame → Type 0
AllPass [] = Unit
AllPass (f ∷ fs) = (f.eval_nest_count ≡ 0) × (f.on_err_ip ≡ none) × AllPass fs

-- The runtime goes on at the handler of a frame.
abbrev pub GoesOnAt : CallFrame → List CallFrame → ℕ → Bool × Runtime → Type 0
GoesOnAt f outer a (handled, r) =
    (handled ≡ false)
    × (r.frames ≡ f ∷ outer)
    × (r.ip ≡ a)
    × (r.stack_ptr ≡ f.stack_ptr)
    × (r.trap ≡ false)
    × (r.buffer_current ≡ false)

find_handler-GoesOnAt :
    (inner : List CallFrame) (f : CallFrame) (outer : List CallFrame) (a : ℕ) (r : Runtime)
    → AllPass inner
    → f.eval_nest_count ≡ 0
    → f.on_err_ip ≡ some a
    → GoesOnAt f outer a (find_handler (inner ++ f ∷ outer) r)
unfolding find_handler
find_handler-GoesOnAt [] f outer a r p n h = rw (n, h) (refl, refl, refl, refl, refl, refl)
find_handler-GoesOnAt (g ∷ inner) f outer a r p n h =
    rw (p.0, p.1) (find_handler-GoesOnAt inner f outer a (record r { ip = g.caller_ip }) p.2 n h)

-- At an error that is not trapped, the innermost procedure that has set ONERR gets it, where no
-- EVAL is running in it or in the procedures it has called: these are left, the stack is cut back
-- to that procedure's, and the runtime goes on at the handler.
pub error_handler-GoesOnAt :
    (inner : List CallFrame) (f : CallFrame) (outer : List CallFrame) (a : ℕ) (r : Runtime)
    → r.frames ≡ inner ++ f ∷ outer
    → r.trap ≡ false
    → AllPass inner
    → f.eval_nest_count ≡ 0
    → f.on_err_ip ≡ some a
    → Returns (GoesOnAt f outer a) (error_handler r)
unfolding error_handler
error_handler-GoesOnAt [] f outer a r e t p n h =
    rw (e, t) (find_handler-GoesOnAt [] f outer a _ p n h)
error_handler-GoesOnAt (g ∷ inner) f outer a r e t p n h =
    rw (e, t) (find_handler-GoesOnAt (g ∷ inner) f outer a _ p n h)
