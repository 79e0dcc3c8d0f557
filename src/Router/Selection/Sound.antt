-- ===== src/Router/Selection/Sound.antt =====
-- src/query_router.rs: the shard that the conditions of a query choose is the shard of every row that
-- meets them, if they are conjunctions.
use pgcat.Prelude.{
  ℕ, ◌≡◌, ◌⊎◌, inl, inr, refl, Bool, true, false, ◌||◌, ◌&&◌, Option, none, some, List, [], ◌∷◌,
  codes, text_eq_sound, All, All-append, Bool-cases, Option-cases,
}
use pgcat.Prelude.Parse.{parse_i64}
use pgcat.Server.Parameters.{Text}
use pgcat.Router.Infer.{ShardingKey, value, placeholder}
use pgcat.Router.Syntax.{
  Expr, binary_op, identifier, compound_identifier, number, other_expr, BinaryOperator, eq_op,
  and_op, or_op, other_op, Join, TableWithJoins, Body, select, values, nested, insert_body,
  update_body, other_body, Query,
}
use pgcat.Router.Syntax
use pgcat.Router.Selection.{
  KeyName, is_key, is_table, only_table, literal_keys, placeholder_key, selection_keys, all_keys,
}

-- No key is found in it.
abbrev pub IsFlat : Expr → Type 0
IsFlat (binary_op left other_op right) = Unit
IsFlat (binary_op left op right) = ⊥
IsFlat e = Unit

-- Conditions joined by AND. A comparison by `=` has no comparison on a side, and a bare number is no
-- condition; what stands under another operator is free.
abbrev pub IsConjunctive : Expr → Type 0
IsConjunctive (binary_op left eq_op right) = IsFlat left × IsFlat right
IsConjunctive (binary_op left and_op right) = IsConjunctive left × IsConjunctive right
IsConjunctive (binary_op left or_op right) = ⊥
IsConjunctive (binary_op left other_op right) = Unit
IsConjunctive (number text) = ⊥
IsConjunctive _ = Unit

module _ (lowercase : Text → Text) where
  abbrev IsTable : Text → List Text → Type 0
  IsTable table (t ∷ []) = table ≡ lowercase t
  IsTable table (schema ∷ (t ∷ [])) = table ≡ lowercase t
  IsTable table _ = ⊥

  abbrev OnlyTable : Text → List (List Text) → Type 0
  OnlyTable table (name ∷ []) = IsTable table name
  OnlyTable table _ = ⊥

  -- A column that is the key: under any table, if the setting says `*`, or in the key's table.
  abbrev pub NamesKey : KeyName → List (List Text) → Expr → Type 0
  NamesKey k tables (identifier c) =
      (lowercase c ≡ k.column) × ((k.table ≡ codes "*") ⊎ OnlyTable k.table tables)
  NamesKey k tables (compound_identifier (t ∷ (c ∷ []))) =
      ((k.table ≡ codes "*") ⊎ (k.table ≡ lowercase t)) × (k.column ≡ lowercase c)
  NamesKey k tables _ = ⊥

  is_table-IsTable :
      (table : Text) (name : List Text) → is_table lowercase table name ≡ true → IsTable table name
  is_table-IsTable table [] h = cc
  is_table-IsTable table (t ∷ []) h = text_eq_sound table (lowercase t) h
  is_table-IsTable table (s ∷ (t ∷ [])) h = text_eq_sound table (lowercase t) h
  is_table-IsTable table (s ∷ (t ∷ (u ∷ rest))) h = cc

  only_table-OnlyTable :
      (table : Text) (tables : List (List Text))
      → only_table lowercase table tables ≡ true
      → OnlyTable table tables
  only_table-OnlyTable table [] h = cc
  only_table-OnlyTable table (name ∷ []) h = is_table-IsTable table name h
  only_table-OnlyTable table (name ∷ (n ∷ rest)) h = cc

  or_true : (a b : Bool) → (a || b) ≡ true → (a ≡ true) ⊎ (b ≡ true)
  or_true true b h = inl refl
  or_true false b h = inr h

  and_true : (a b : Bool) → (a && b) ≡ true → (a ≡ true) × (b ≡ true)
  and_true true b h = (refl, h)
  and_true false b h = cc

  is_key-NamesKey :
      (k : KeyName) (tables : List (List Text)) (e : Expr)
      → is_key lowercase k tables e ≡ true
      → NamesKey k tables e
  unfolding is_key
  is_key-NamesKey k tables (identifier c) h =
      let (column, table) = and_true _ _ h in
      (
        text_eq_sound (lowercase c) k.column column,
        elim (or_true _ _ table) [
          | inl star ↦ inl (text_eq_sound k.table (codes "*") star)
          | inr only_one ↦ inr (only_table-OnlyTable k.table tables only_one)
        ],
      )
  is_key-NamesKey k tables (compound_identifier []) h = cc
  is_key-NamesKey k tables (compound_identifier (t ∷ [])) h = cc
  is_key-NamesKey k tables (compound_identifier (t ∷ (c ∷ []))) h =
      let (table, column) = and_true _ _ h in
      (
        elim (or_true _ _ table) [
          | inl star ↦ inl (text_eq_sound k.table (codes "*") star)
          | inr same ↦ inr (text_eq_sound k.table (lowercase t) same)
        ],
        text_eq_sound k.column (lowercase c) column,
      )
  is_key-NamesKey k tables (compound_identifier (t ∷ (c ∷ (d ∷ rest)))) h = cc
  is_key-NamesKey k tables (binary_op l op r) h = cc
  is_key-NamesKey k tables (number t) h = cc
  is_key-NamesKey k tables (Syntax.placeholder t) h = cc
  is_key-NamesKey k tables (other_expr t) h = cc

  -- What Postgres says of the rows that meet a condition: of a conjunction they meet both sides, and
  -- where the key is compared with a number, it is that number.
  pub record Conditions (k : KeyName) (tables : List (List Text)) : Type 1 where
    pub Row : Type 0
    pub key : Row → ℕ
    pub Meets : Row → Expr → Type 0
    pub of_and :
        (row : Row) (l r : Expr) → Meets row (binary_op l and_op r) → Meets row l × Meets row r
    pub of_key :
        (row : Row) (column : Expr) (text : Text) (n : ℕ)
        → NamesKey k tables column
        → parse_i64 text ≡ some n
        → Meets row (binary_op column eq_op (number text))
        → key row ≡ n

  module _ (k : KeyName) (tables : List (List Text)) (m : Conditions k tables) (row : m.Row) where
    abbrev pub IsKeyOfRow : ShardingKey → Type 0
    IsKeyOfRow (value n) = m.key row ≡ n
    IsKeyOfRow (placeholder n) = Unit

    selection_keys-IsFlat : (e : Expr) → IsFlat e → selection_keys lowercase k tables e ≡ []
    unfolding selection_keys
    selection_keys-IsFlat (binary_op l other_op r) h = refl
    selection_keys-IsFlat (binary_op l eq_op r) h = elim h [ ]
    selection_keys-IsFlat (binary_op l and_op r) h = elim h [ ]
    selection_keys-IsFlat (binary_op l or_op r) h = elim h [ ]
    selection_keys-IsFlat (identifier c) h = refl
    selection_keys-IsFlat (compound_identifier c) h = refl
    selection_keys-IsFlat (number t) h = refl
    selection_keys-IsFlat (Syntax.placeholder t) h = refl
    selection_keys-IsFlat (other_expr n) h = refl

    placeholder_key-AreKeys : (o : Option ℕ) → All IsKeyOfRow (placeholder_key lowercase o)
    placeholder_key-AreKeys none = tt
    placeholder_key-AreKeys (some n) = (tt, tt)

    literal_keys-AreKeys :
        (left right : Expr)
        → m.Meets row (binary_op left eq_op right)
        → All IsKeyOfRow (literal_keys lowercase (is_key lowercase k tables left) right)
    unfolding literal_keys
    literal_keys-AreKeys left (number text) h = elim (Bool-cases (is_key lowercase k tables left)) [
      | inl found ↦ elim (Option-cases (parse_i64 text)) [
        | inl wrong ↦ rw (found, wrong) tt
        | inr (n, parsed) ↦
            rw (found, parsed)
              (m.of_key row left text n (is_key-NamesKey k tables left found) parsed h, tt)
      ]
      | inr other ↦ rw other tt
    ]
    literal_keys-AreKeys left (Syntax.placeholder t) h = placeholder_key-AreKeys _
    literal_keys-AreKeys left (binary_op l op r) h = tt
    literal_keys-AreKeys left (identifier c) h = tt
    literal_keys-AreKeys left (compound_identifier c) h = tt
    literal_keys-AreKeys left (other_expr n) h = tt

    -- A condition on the right of AND is no literal that could be a key.
    literal_keys-IsConjunctive :
        (found : Bool) (e : Expr)
        → IsConjunctive e
        → All IsKeyOfRow (literal_keys lowercase found e)
    unfolding literal_keys
    literal_keys-IsConjunctive found (number t) h = elim h [ ]
    literal_keys-IsConjunctive found (Syntax.placeholder t) h = placeholder_key-AreKeys _
    literal_keys-IsConjunctive found (binary_op l op r) h = tt
    literal_keys-IsConjunctive found (identifier c) h = tt
    literal_keys-IsConjunctive found (compound_identifier c) h = tt
    literal_keys-IsConjunctive found (other_expr n) h = tt

    selection_keys-AreKeys :
        (e : Expr)
        → IsConjunctive e
        → m.Meets row e
        → All IsKeyOfRow (selection_keys lowercase k tables e)
    unfolding selection_keys
    selection_keys-AreKeys (binary_op l other_op r) c h = tt
    selection_keys-AreKeys (binary_op l or_op r) c h = elim c [ ]
    selection_keys-AreKeys (binary_op l eq_op r) (flat_l, flat_r) h =
        rw (selection_keys-IsFlat l flat_l, selection_keys-IsFlat r flat_r)
          (literal_keys-AreKeys l r h)
    selection_keys-AreKeys (binary_op l and_op r) (c, d) h =
        let (meets_l, meets_r) = m.of_and row l r h in
        All-append _ _ _ (selection_keys-AreKeys l c meets_l) (
          All-append _ _ _ (selection_keys-AreKeys r d meets_r)
            (literal_keys-IsConjunctive (is_key lowercase k tables l) r d))
    selection_keys-AreKeys (identifier x) c h = tt
    selection_keys-AreKeys (compound_identifier x) c h = tt
    selection_keys-AreKeys (number x) c h = tt
    selection_keys-AreKeys (Syntax.placeholder x) c h = tt
    selection_keys-AreKeys (other_expr x) c h = tt

    pub all_keys-AreKeys :
        (exprs : List Expr)
        → All IsConjunctive exprs
        → All (m.Meets row) exprs
        → All IsKeyOfRow (all_keys lowercase k tables exprs)
    unfolding all_keys
    all_keys-AreKeys [] c h = tt
    all_keys-AreKeys (e ∷ exprs) (c, cs) (h, hs) =
        All-append _ _ _ (selection_keys-AreKeys e c h) (all_keys-AreKeys exprs cs hs)
