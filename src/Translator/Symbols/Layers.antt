-- ===== src/Translator/Symbols/Layers.antt =====
-- What the symbol table of oplt/stran/OT_SYMBL.CPP promises its callers: a stack of scopes, each
-- with its symbols, the newest first. There is no hashing and no mark on a symbol.
use opl_dev.Prelude.{
  ℕ, List, [], ◌∷◌, ◌++◌, Bool, true, false, ◌&&◌, Option, none, some, length, if◌then◌else◌,
}
use opl_dev.Prelude.Outcome.{Outcome, ok, leave, panic, ◌>>=◌, duplicate_name, scope_underflow}
use opl_dev.Translator.Symbols.{
  Symbol, SymbolStep, start_call, end_call, reset_call, add_call, find_symbol, is_declaration,
  is_address,
}

abbrev pub symbols : List (List Symbol) → List Symbol
symbols [] = []
symbols (l ∷ ls) = l ++ symbols ls

-- The innermost symbol of that name and token
abbrev pub lookup : List ℕ → ℕ → List (List Symbol) → Option Symbol
lookup name token ls = find_symbol name token (symbols ls)

-- A name can be declared once in a scope, but a reference can stand beside the declaration it is
-- of.
abbrev pub is_taken : Symbol → Option Symbol → Bool
is_taken s none = false
is_taken s (some p) =
    if is_declaration p.class && is_address s.declaration p.address then false else true

abbrev pub declare : Symbol → List (List Symbol) → Outcome (List (List Symbol))
declare s [] = panic scope_underflow
declare s (l ∷ ls) =
    if is_taken s (find_symbol s.name s.token l)
    then leave duplicate_name
    else ok ((record s { scope = length ls } ∷ l) ∷ ls)

-- The outermost scope is never closed.
abbrev pub close : List (List Symbol) → Outcome (List (List Symbol))
close [] = panic scope_underflow
close (l ∷ []) = panic scope_underflow
close (l ∷ l' ∷ ls) = ok (l' ∷ ls)

abbrev pub layer_call : SymbolStep → List (List Symbol) → Outcome (List (List Symbol))
layer_call start_call ls = ok ([] ∷ ls)
layer_call end_call ls = close ls
layer_call reset_call ls = ok ([] ∷ [])
layer_call (add_call s) ls = declare s ls

abbrev pub layer_calls : List SymbolStep → List (List Symbol) → Outcome (List (List Symbol))
layer_calls [] ls = ok ls
layer_calls (c ∷ cs) ls = layer_call c ls >>= layer_calls cs
