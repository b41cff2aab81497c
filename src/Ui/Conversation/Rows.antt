-- ===== src/Ui/Conversation/Rows.antt =====
-- MessageModel.cpp: what the rows of a conversation are, and how many of them its views know of.
use e2ee_windows.Common.{
  ℕ, ◌+◌, ◌≡◌, ◌≢◌, ◌<◌, refl, Bool, true, false, Option, none, some, List, [], ◌∷◌, ◌++◌, All,
  All-append, if◌then◌else◌, length, length-append, arith, sym, ◌∙◌, ◌⊎◌, inl, inr, Bool-cases,
}
use e2ee_windows.Ui.{Qt, IsQt}
use e2ee_windows.Ui.Conversation.{
  ItemType, divider, MessageItem, MessageModel, new_model, clear, set_conversation, needs_divider,
  divider_item, maybe_insert_divider, at_conversation, append_row, append_text_message,
  append_system_message,
}

-- How many rows are times.
abbrev is_divider : ItemType → ℕ
is_divider divider = 1
is_divider t = 0

module _ (q : Qt) where
  unfoldable pub dividers : List (MessageItem q) → ℕ
  dividers [] = 0
  dividers (i ∷ is) = is_divider i.type + dividers is

  dividers-append : (xs ys : List (MessageItem q)) → dividers (xs ++ ys) ≡ dividers xs + dividers ys
  unfolding dividers
  dividers-append [] ys = omega arith
  dividers-append (x ∷ xs) ys = omega (arith, dividers-append xs ys)

  -- A row is a time, or belongs to the conversation.
  abbrev pub BelongsTo : q.QString → MessageItem q → Type 0
  BelongsTo conv i = (i.type ≡ divider) ⊎ (i.conv_id ≡ conv)

  -- Where a message came there is a time; where none came there is no row.
  abbrev pub Dated : Option q.QDateTime → List (MessageItem q) → Type 0
  Dated none items = items ≡ []
  Dated (some t) items = 0 < dividers items

  -- The times and the rows that were announced are all the rows, and each row is in its place.
  pub record IsCounted (m : MessageModel q) : Type 0 where
    pub rows : length m.items ≡ m.announced + dividers m.items
    pub dated : Dated m.last_message_time m.items
    pub own : All (BelongsTo m.current_conv_id) m.items

  set_conversation-IsCounted :
      (m : MessageModel q) (conv : q.QString) → IsCounted (set_conversation q m conv)
  unfolding set_conversation dividers
  set_conversation-IsCounted m conv = record { rows = refl; dated = refl; own = tt }

  clear-IsCounted : (m : MessageModel q) → IsCounted (clear q m)
  unfolding clear dividers
  clear-IsCounted m = record { rows = refl; dated = refl; own = tt }

  -- Afterwards the model is at the conversation.
  at_conversation_lem :
      (d : IsQt q) (m : MessageModel q) (conv : q.QString)
      → IsCounted m
      → IsCounted (at_conversation q m conv) × ((at_conversation q m conv).current_conv_id ≡ conv)
  unfolding at_conversation
  at_conversation_lem d m conv v = elim (Bool-cases (q.equal conv m.current_conv_id)) [
    | inl e ↦ rw (at_conversation, e) (v, sym (d.equal→eq conv m.current_conv_id e))
    | inr e ↦ rw (at_conversation, e) (set_conversation-IsCounted m conv, refl)
  ]

  no_row :
      (last : Option q.QDateTime) (items : List (MessageItem q)) (time : q.QDateTime)
      → Dated last items
      → needs_divider q last time ≡ false
      → 0 < dividers items
  unfolding needs_divider
  no_row none items time v e = cc
  no_row (some t) items time v e = v

  -- One row, not announced, for a divider; afterwards there is a time.
  inserted :
      (m : MessageModel q) (time : q.QDateTime) (b : Bool)
      → needs_divider q m.last_message_time time ≡ b
      → IsCounted m
      → IsCounted (record m {
        items = if b then m.items ++ divider_item q time ∷ [] else m.items;
        last_message_time = some time;
      })
  unfolding dividers divider_item
  inserted m time true e v = record {
    rows = omega (
      arith,
      v.rows,
      length-append m.items (divider_item q time ∷ []),
      dividers-append m.items (divider_item q time ∷ []),
    );
    dated = omega (arith, dividers-append m.items (divider_item q time ∷ []));
    own =
        All-append (BelongsTo m.current_conv_id) m.items (divider_item q time ∷ []) v.own
          (inl refl, tt);
  }
  inserted m time false e v = record {
    rows = v.rows;
    dated = no_row m.last_message_time m.items time v.dated e;
    own = v.own;
  }

  maybe_insert_divider-IsCounted :
      (m : MessageModel q) (time : q.QDateTime)
      → IsCounted m
      → IsCounted (maybe_insert_divider q m time)
  unfolding maybe_insert_divider
  maybe_insert_divider-IsCounted m time =
      inserted m time (needs_divider q m.last_message_time time) refl

  append-Dated :
      (last : Option q.QDateTime) (items : List (MessageItem q)) (item : MessageItem q)
      → last ≢ none
      → Dated last items
      → Dated last (items ++ item ∷ [])
  append-Dated none items item n v = absurd (n refl)
  append-Dated (some t) items item n v = omega (arith, dividers-append items (item ∷ []))

  append_row-IsCounted :
      (m : MessageModel q) (item : MessageItem q)
      → is_divider item.type ≡ 0
      → item.conv_id ≡ m.current_conv_id
      → m.last_message_time ≢ none
      → IsCounted m
      → IsCounted (append_row q m item)
  unfolding append_row dividers
  append_row-IsCounted m item e o n v = record {
    rows =
        omega (
          arith,
          v.rows,
          length-append m.items (item ∷ []),
          dividers-append m.items (item ∷ []),
          e,
        );
    dated = append-Dated m.last_message_time m.items item n v.dated;
    own = All-append (BelongsTo m.current_conv_id) m.items (item ∷ []) v.own (inr o, tt);
  }

  appended :
      (m : MessageModel q) (time : q.QDateTime) (item : MessageItem q) (conv : q.QString)
      → is_divider item.type ≡ 0
      → item.conv_id ≡ conv
      → m.current_conv_id ≡ conv
      → IsCounted m
      → IsCounted (append_row q (maybe_insert_divider q m time) item)
  unfolding maybe_insert_divider
  appended m time item conv e o o' v =
      append_row-IsCounted (maybe_insert_divider q m time) item e (o ∙ sym o') (λ x. cc)
        (maybe_insert_divider-IsCounted m time v)

  -- One call of a window.
  pub data Step : MessageModel q → MessageModel q → Type 0 where
    clears : (m : MessageModel q) → Step m (clear q m)
    moves : (m : MessageModel q) (conv : q.QString) → Step m (set_conversation q m conv)
    texts :
        (m : MessageModel q) (conv : q.QString) (outgoing : Bool) (s : q.QString)
        (time : q.QDateTime)
        → Step m (append_text_message q m conv outgoing s time)
    notes :
        (m : MessageModel q) (conv s : q.QString) (time : q.QDateTime)
        → Step m (append_system_message q m conv s time)

  pub data Reach : MessageModel q → Type 0 where
    new : Reach (new_model q)
    next : {a b : MessageModel q} → Reach a → Step a b → Reach b

  Step-IsCounted : {a b : MessageModel q} → IsQt q → Step a b → IsCounted a → IsCounted b
  unfolding append_text_message append_system_message
  Step-IsCounted d (clears m) v = clear-IsCounted m
  Step-IsCounted d (moves m conv) v = set_conversation-IsCounted m conv
  Step-IsCounted d (texts m conv outgoing s time) v =
      let (w, at) = at_conversation_lem d m conv v in
      appended (at_conversation q m conv) time _ conv refl refl at w
  Step-IsCounted d (notes m conv s time) v =
      let (w, at) = at_conversation_lem d m conv v in
      appended (at_conversation q m conv) time _ conv refl refl at w

  Reach-IsCounted : {m : MessageModel q} → IsQt q → Reach m → IsCounted m
  unfolding new_model dividers
  Reach-IsCounted d new = record { rows = refl; dated = refl; own = tt }
  Reach-IsCounted d (next r s) = Step-IsCounted d s (Reach-IsCounted d r)

  fewer :
      (m : MessageModel q) (last : Option q.QDateTime)
      → Dated last m.items
      → length m.items ≡ m.announced + dividers m.items
      → (m.items ≡ []) ⊎ (m.announced < length m.items)
  fewer m none v e = inl v
  fewer m (some t) v e = inr (omega arith)

  -- After any calls on a new model: each row is a time or belongs to the current conversation; the
  -- views were told of all rows but the times; and either there is no row, or they know of fewer
  -- rows than there are.
  pub Reach-announced :
      (d : IsQt q) (m : MessageModel q)
      → Reach m
      → All (BelongsTo m.current_conv_id) m.items
        × (length m.items ≡ m.announced + dividers m.items)
        × ((m.items ≡ []) ⊎ (m.announced < length m.items))
  Reach-announced d m r =
      let v = Reach-IsCounted d r in (v.own, v.rows, fewer m m.last_message_time v.dated v.rows)
