-- ===== src/Translator/Symbols.antt =====
-- oplt/stran/OT_SYMBL.CPP and OT_SYMBL.H: the translator's table of symbols, a hash table whose
-- entries also stand in the order they were added. A symbol's address is its identity; a text is
-- its code units, and a token the number of its value.
pub mod Layers
pub mod Refines
use opl_dev.Prelude.{
  ℕ, zero, suc, ◌+◌, ◌-◌, ◌%◌, List, [], ◌∷◌, Bool, true, false, ◌&&◌, ◌||◌, Option, none, some,
  ltb, ◌==◌, if◌then◌else◌,
}
use opl_dev.Prelude.Outcome.{Outcome, ok, leave, panic, ◌>>=◌, duplicate_name, scope_underflow}
use opl_dev.Runtime.Globals.{same_name}

-- `COplSymbol::TClass`
pub data SymbolClass : Type 0 where
  constant label global local argument external_decl : SymbolClass
  opx_function proc_decl external_ref proc_ref : SymbolClass

-- `COplSymbol` with the members of COplDeclarationSymbol that the table reads. `declaration` is
-- the address of a reference's iDeclaration; a declaration has none.
pub record Symbol : Type 0 where
  pub address : ℕ
  pub class : SymbolClass
  pub name : List ℕ
  pub token : ℕ
  pub declaration : Option ℕ
  pub scope : ℕ

-- `COplSymbolTable`: iCurrentScope, iScopeQue from its first symbol, and iTable.
pub record SymbolTable : Type 0 where
  pub current_scope : ℕ
  pub scope_queue : List Symbol
  pub table : ℕ → List Symbol

-- The table that the constructor leaves
abbrev pub new_table : SymbolTable
new_table = record { current_scope = 0; scope_queue = []; table = λ k. [] }

-- The sum of Hash, a TUint
abbrev pub hash_sum : ℕ → List ℕ → ℕ
hash_sum sum [] = sum
hash_sum sum (c ∷ cs) = hash_sum ((sum + c) % 0x1_0000_0000) cs

-- `Hash`: the index of the queue
unfoldable pub hash_of : List ℕ → ℕ
hash_of name = hash_sum 0 name % 31

-- The loop of Find along a queue; none is NULL.
abbrev pub find_symbol : List ℕ → ℕ → List Symbol → Option Symbol
find_symbol name token [] = none
find_symbol name token (s ∷ ss) =
    let rest = find_symbol name token ss in
    if same_name name s.name && (s.token == token) then some s else rest

-- `Find`
unfoldable pub find : List ℕ → ℕ → SymbolTable → Option Symbol
find name token t = find_symbol name token (t.table (hash_of name))

-- `Class()==EExternalDecl || Class()==EProcDecl`
abbrev pub is_declaration : SymbolClass → Bool
is_declaration external_decl = true
is_declaration proc_decl = true
is_declaration c = false

abbrev pub is_address : Option ℕ → ℕ → Bool
is_address none a = false
is_address (some b) a = a == b

-- What AddL's condition says of the symbol that was found: it is in the scope, and it is not the
-- declaration that a reference is added for. (Where the symbol is no reference, the source compares
-- with its iName, which is no symbol's address.)
abbrev pub is_duplicate : Symbol → ℕ → Option Symbol → Bool
is_duplicate s scope none = false
is_duplicate s scope (some p) =
    (p.scope == scope)
    && (if is_declaration p.class && is_address s.declaration p.address then false else true)

abbrev pub put : (ℕ → List Symbol) → ℕ → List Symbol → ℕ → List Symbol
put table i q k = if k == i then q else table k

-- `AddL`
unfoldable pub add : Symbol → SymbolTable → Outcome SymbolTable
unfolding find
add s t =
    let found = find s.name s.token t in
    let placed = record s { scope = t.current_scope } in
    let h = hash_of s.name in
    if is_duplicate s t.current_scope found
    then leave duplicate_name
    else ok (record t {
      scope_queue = placed ∷ t.scope_queue;
      table = put t.table h (placed ∷ t.table h);
    })

-- A queue without the entry at an address
abbrev pub unlink : ℕ → List Symbol → List Symbol
unlink a [] = []
unlink a (s ∷ ss) = let rest = unlink a ss in if s.address == a then ss else s ∷ rest

-- `Delete`
unfoldable pub delete : Symbol → SymbolTable → SymbolTable
delete s t =
    let h = hash_of s.name in
    record t {
      scope_queue = unlink s.address t.scope_queue;
      table = put t.table h (unlink s.address (t.table h));
    }

-- The loop of EndScope, over the queue as it is at its start: a round deletes its first symbol.
unfoldable pub delete_scope : List Symbol → SymbolTable → SymbolTable
delete_scope [] t = t
delete_scope (s ∷ rest) t =
    let deleted = delete_scope rest (delete s t) in
    if s.scope == t.current_scope then deleted else t

-- `StartScope`
abbrev pub start_scope : SymbolTable → SymbolTable
start_scope t = record t { current_scope = suc t.current_scope }

-- `EndScope`
unfoldable pub end_scope : SymbolTable → Outcome SymbolTable
end_scope t =
    let deleted = delete_scope t.scope_queue t in
    if ltb 0 t.current_scope
    then ok (record deleted { current_scope = deleted.current_scope - 1 })
    else panic scope_underflow

-- The loop of Reset, over the queue as it is at its start
unfoldable pub delete_all : List Symbol → SymbolTable → SymbolTable
delete_all [] t = t
delete_all (s ∷ rest) t = delete_all rest (delete s t)

-- `Reset`
unfoldable pub reset : SymbolTable → SymbolTable
reset t = record (delete_all t.scope_queue t) { current_scope = 0 }

-- The calls that a translation makes of its table
pub data SymbolStep : Type 0 where
  start_call end_call reset_call : SymbolStep
  add_call : Symbol → SymbolStep

unfoldable pub call : SymbolStep → SymbolTable → Outcome SymbolTable
unfolding add end_scope reset
call start_call t = ok (start_scope t)
call end_call t = end_scope t
call reset_call t = ok (reset t)
call (add_call s) t = add s t

-- A sequence of calls; the first that leaves ends it.
unfoldable pub calls : List SymbolStep → SymbolTable → Outcome SymbolTable
calls [] t = ok t
calls (c ∷ cs) t = call c t >>= calls cs
