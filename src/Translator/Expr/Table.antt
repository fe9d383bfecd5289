-- ===== src/Translator/Expr/Table.antt =====
-- oplt/stran/OT_EXPR.CPP, the operator-precedence table. An entry of the source packs two actions
-- into one byte: the high half is taken where an operand is due (an operator was just seen), the
-- low half where an operator is due.
pub mod Facts
use opl_dev.Prelude.{ℕ, List, [], ◌∷◌, Bool, get_elem?, if◌then◌else◌}
use opl_dev.Prelude.Outcome.{Outcome, ok, checked, ◌>>=◌}
use opl_dev.Translator.Token.{Operator, number}

-- ELErr, ELStk, ELAcc, ELRed, ELROB, ELPer, ELDrp, ELMis
pub data Action : Type 0 where
  error stack accept reduce reduce_to_open_bracket percent drop missing_bracket : Action

-- An operator's column, when it is the one just read.
abbrev pub col_array : List ℕ
col_array = 0 ∷ 1 ∷ 1 ∷ 1 ∷ 1 ∷ 1 ∷ 1 ∷ 2 ∷ 2 ∷ 3 ∷ 3 ∷ 4 ∷ 7 ∷ 7 ∷ 6 ∷ 5 ∷ 8 ∷ 6 ∷ 9 ∷ 10 ∷ []

-- An operator's row, when it is on top of the operator stack.
abbrev pub row_array : List ℕ
row_array = 0 ∷ 2 ∷ 1 ∷ 2 ∷ 1 ∷ 1 ∷ 1 ∷ 3 ∷ 3 ∷ 4 ∷ 4 ∷ 5 ∷ 8 ∷ 8 ∷ 7 ∷ 6 ∷ 0 ∷ 9 ∷ []

abbrev Entry : Type 0
Entry = Action × Action

-- The entries that the table is made of, high half first.
abbrev ee : Entry
ee = (Action.error, Action.error)

abbrev es : Entry
es = (Action.error, Action.stack)

abbrev er : Entry
er = (Action.error, Action.reduce)

abbrev ea : Entry
ea = (Action.error, Action.accept)

abbrev eb : Entry
eb = (Action.error, Action.reduce_to_open_bracket)

abbrev ep : Entry
ep = (Action.error, Action.percent)

abbrev em : Entry
em = (Action.error, Action.missing_bracket)

abbrev se : Entry
se = (Action.stack, Action.error)

abbrev dd : Entry
dd = (Action.drop, Action.drop)

abbrev pub precedence_table : List (List Entry)
precedence_table =
    (ee ∷ es ∷ es ∷ es ∷ es ∷ se ∷ se ∷ es ∷ ee ∷ ee ∷ ea ∷ [])
    ∷ (ee ∷ er ∷ es ∷ es ∷ es ∷ se ∷ se ∷ er ∷ ee ∷ eb ∷ er ∷ [])
    ∷ (ee ∷ er ∷ es ∷ es ∷ es ∷ se ∷ se ∷ er ∷ ep ∷ eb ∷ er ∷ [])
    ∷ (ee ∷ er ∷ er ∷ es ∷ es ∷ se ∷ se ∷ er ∷ ep ∷ eb ∷ er ∷ [])
    ∷ (ee ∷ er ∷ er ∷ er ∷ es ∷ se ∷ se ∷ er ∷ ep ∷ eb ∷ er ∷ [])
    ∷ (ee ∷ er ∷ er ∷ er ∷ es ∷ se ∷ se ∷ er ∷ ee ∷ eb ∷ er ∷ [])
    ∷ (ee ∷ er ∷ er ∷ er ∷ es ∷ dd ∷ se ∷ er ∷ er ∷ eb ∷ er ∷ [])
    ∷ (ee ∷ er ∷ er ∷ er ∷ es ∷ se ∷ se ∷ er ∷ er ∷ eb ∷ er ∷ [])
    ∷ (ee ∷ es ∷ es ∷ es ∷ es ∷ se ∷ se ∷ er ∷ ee ∷ eb ∷ er ∷ [])
    ∷ (ee ∷ es ∷ es ∷ es ∷ es ∷ se ∷ se ∷ es ∷ ee ∷ eb ∷ em ∷ [])
    ∷ []

-- `(precedenceTable[row][col]>>aState.OperatorSeen())&KOperatorActionMask`
unfoldable pub look_up : ℕ → ℕ → Bool → Outcome Action
look_up row col seen = do
  entries ← checked (get_elem? precedence_table row)
  entry ← checked (get_elem? entries col)
  ok (if seen then entry.0 else entry.1)

unfoldable pub column : Operator → Outcome ℕ
column op = checked (get_elem? col_array (number op))

-- The action for the operator on top of the stack and the column of the one just read.
unfoldable pub action : Operator → ℕ → Bool → Outcome Action
unfolding look_up
action top col seen = do row ← checked (get_elem? row_array (number top)); look_up row col seen
