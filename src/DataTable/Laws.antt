-- ===== src/DataTable/Laws.antt =====
-- What the shared table shows, and where a change of the selection goes.
use future_was.Base.{
  ℕ, suc, ◌+◌, true, false, none, some, List, [], ◌∷◌, length, is_some, ◌≡◌, refl, arith,
  if◌then◌else◌,
}
use future_was.DataTable.{
  Selection, Props, Updater, apply_updater, Change, to_parent, to_internal, current_selection,
  on_row_selection_change, BodyRow, message, data_row, show_rows, is_nil, body,
}

length-show_rows :
    {T : Type 0} (props : Props T) (sel : Selection) (index : ℕ) (rows : List T)
    → length (show_rows props sel index rows) ≡ length rows
unfolding show_rows
length-show_rows props sel index [] = refl
length-show_rows props sel index (row ∷ rows) =
    omega (arith, length-show_rows props sel (index + 1) rows)

-- How many messages a body has.
abbrev pub messages : {T : Type 0} → List (BodyRow T) → ℕ
messages [] = 0
messages (message _ ∷ rows) = suc (messages rows)
messages (data_row _ _ _ _ ∷ rows) = messages rows

messages-show_rows :
    {T : Type 0} (props : Props T) (sel : Selection) (index : ℕ) (rows : List T)
    → messages (show_rows props sel index rows) ≡ 0
unfolding show_rows
messages-show_rows props sel index [] = refl
messages-show_rows props sel index (row ∷ rows) = messages-show_rows props sel (index + 1) rows

-- Exactly one of three things is shown: the loading message alone, the message for no data alone,
-- or every row of the data once and no message.
pub body-length :
    {T : Type 0} (props : Props T) (internal : Selection)
    → let shown = body props internal in
      (props.loading ≡ true → shown ≡ message props.loading_text ∷ [])
      × (props.loading ≡ false → props.rows ≡ [] → shown ≡ message props.empty_text ∷ [])
      × (props.loading ≡ false
          → is_nil props.rows ≡ false
          → (length shown ≡ length props.rows) × (messages shown ≡ 0))
unfolding body
body-length props internal =
    let sel = current_selection props.selection internal in
    (
      λ loading. ground arith,
      λ loaded empty. unfold show_rows in ground arith,
      λ loaded some_rows. ground (
        arith,
        length-show_rows props sel 0 props.rows,
        messages-show_rows props sel 0 props.rows,
      ),
    )

-- The selection that the table shows after a change, by who keeps it.
abbrev pub after_change : {T : Type 0} → Props T → Selection → Change → Selection
unfolding current_selection
after_change props internal (to_parent next) =
    current_selection (if is_some props.selection then some next else none) internal
after_change props internal (to_internal next) = current_selection props.selection next

-- Where the parent gives the selection and takes its changes, or does neither, the table shows what
-- the change asks for. Where it gives a selection and takes no changes, the change is not shown.
pub selection_follows :
    {T : Type 0} (props : Props T) (internal : Selection) (updater : Updater)
    → let shown = after_change props internal (on_row_selection_change props internal updater) in
      (props.controlled ≡ is_some props.selection
        → shown ≡ apply_updater updater (current_selection props.selection internal))
      × ((sel : Selection) → props.selection ≡ some sel → props.controlled ≡ false → shown ≡ sel)
unfolding on_row_selection_change
selection_follows props internal updater = (λ same. ground arith, λ sel given ignored. ground arith)
