-- ===== src/Tests/Errors.antt =====
-- Samples for oplr/src/EN_ERROR.CPP: an error in a procedure that was called by one with ONERR.
use opl_dev.Prelude.{[], ◌∷◌, refl, false, none, some}
use opl_dev.Prelude.Outcome.{Returns}
use opl_dev.Runtime.Errors.{CallFrame, Runtime, GoesOnAt, error_handler, error_handler-GoesOnAt}

abbrev called : CallFrame
called = record { eval_nest_count = 0; on_err_ip = none; stack_ptr = 40; caller_ip = 700 }

abbrev handling : CallFrame
handling = record { eval_nest_count = 0; on_err_ip = some 650; stack_ptr = 80; caller_ip = 90 }

abbrev at_error : Runtime
at_error = record {
  frames = called ∷ handling ∷ called ∷ [];
  ip = 1200;
  trap = false;
  buffer_current = false;
  stack_ptr = 20;
}

error_handler-GoesOnAt_example :
    Returns (GoesOnAt handling (called ∷ []) 650) (error_handler at_error)
error_handler-GoesOnAt_example =
    error_handler-GoesOnAt (called ∷ []) handling (called ∷ []) 650 at_error refl refl
      (refl, refl, tt) refl refl
