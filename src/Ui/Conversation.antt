-- ===== src/Ui/Conversation.antt =====
-- client/ui/qq_main_list/MessageModel.cpp and MessageModel.h: the rows of a chat window.
pub mod Rows
use e2ee_windows.Common.{
  ℕ, zero, suc, ◌+◌, ◌-◌, ◌==◌, Bool, true, false, not, ◌||◌, Option, none, some, List, [], ◌∷◌,
  ◌++◌, Bytes, text, if◌then◌else◌, length, ltb,
}
use e2ee_windows.Ui.{Qt}

-- `MessageItem::Type` and `MessageModel::Roles`
pub data ItemType : Type 0 where
  message divider system : ItemType

pub data Role : Type 0 where
  type_role outgoing_role text_role time_role avatar_role system_text_role other_role : Role

module _ (q : Qt) where
  -- A colour is its name; `none` is a time that is not set.
  pub record MessageItem : Type 0 where
    pub conv_id : q.QString
    pub outgoing : Bool
    pub text : q.QString
    pub time : Option q.QDateTime
    pub type : ItemType
    pub avatar_color : Bytes
    pub system_text : q.QString

  -- `announced` counts the rows that the views were told of, by a reset or by `endInsertRows`.
  pub record MessageModel : Type 0 where
    pub items : List MessageItem
    pub current_conv_id : q.QString
    pub last_message_time : Option q.QDateTime
    pub announced : ℕ

  -- `MessageItem()`
  abbrev pub no_item : MessageItem
  no_item = record {
    conv_id = q.literal [];
    outgoing = false;
    text = q.literal [];
    time = none;
    type = message;
    avatar_color = text "gray";
    system_text = q.literal [];
  }

  unfoldable pub new_model : MessageModel
  new_model = record {
    items = [];
    current_conv_id = q.literal [];
    last_message_time = none;
    announced = 0;
  }

  -- The rows under the root of the list; below a row there are none.
  unfoldable pub row_count : MessageModel → Bool → ℕ
  row_count m below = if below then 0 else length m.items

  pub data Variant : Type 0 where
    no_value : Variant
    a_type : ItemType → Variant
    a_truth : Bool → Variant
    a_string : q.QString → Variant
    a_time : Option q.QDateTime → Variant
    a_color : Bytes → Variant

  unfoldable pub value_of : MessageItem → Role → Variant
  value_of item type_role = a_type item.type
  value_of item outgoing_role = a_truth item.outgoing
  value_of item text_role = a_string item.text
  value_of item time_role = a_time item.time
  value_of item avatar_role = a_color item.avatar_color
  value_of item system_text_role = a_string item.system_text
  value_of item other_role = no_value

  -- `data` of an index that is valid and has the given row.
  unfoldable pub item_data : List MessageItem → ℕ → Role → Variant
  unfolding value_of
  item_data [] row role = no_value
  item_data (i ∷ is) zero role = value_of i role
  item_data (i ∷ is) (suc row) role = item_data is row role

  unfoldable pub clear : MessageModel → MessageModel
  clear m = record m { items = []; last_message_time = none; announced = 0 }

  unfoldable pub set_conversation : MessageModel → q.QString → MessageModel
  set_conversation m conv_id = record {
    items = [];
    current_conv_id = conv_id;
    last_message_time = none;
    announced = 0;
  }

  -- Whether more than 300 seconds have passed, or there is no message yet.
  unfoldable pub needs_divider : Option q.QDateTime → q.QDateTime → Bool
  needs_divider none time = true
  needs_divider (some last) time = ltb 300 (q.seconds time - q.seconds last)

  unfoldable pub divider_item : q.QDateTime → MessageItem
  divider_item time = record no_item { type = divider; text = q.date_text time; time = some time }

  unfoldable pub maybe_insert_divider : MessageModel → q.QDateTime → MessageModel
  unfolding needs_divider divider_item
  maybe_insert_divider m time = record m {
    items =
        if needs_divider m.last_message_time time
        then m.items ++ divider_item time ∷ []
        else m.items;
    last_message_time = some time;
  }

  -- `if (convId != currentConvId_)`
  unfoldable pub at_conversation : MessageModel → q.QString → MessageModel
  unfolding set_conversation
  at_conversation m conv_id =
      if q.equal conv_id m.current_conv_id then m else set_conversation m conv_id

  -- A row between `beginInsertRows` and `endInsertRows`.
  unfoldable pub append_row : MessageModel → MessageItem → MessageModel
  append_row m item = record m { items = m.items ++ item ∷ []; announced = m.announced + 1 }

  unfoldable pub append_text_message :
      MessageModel → q.QString → Bool → q.QString → q.QDateTime → MessageModel
  unfolding at_conversation maybe_insert_divider append_row
  append_text_message m conv_id outgoing shown time =
      append_row (maybe_insert_divider (at_conversation m conv_id) time) (record no_item {
        type = message;
        conv_id = conv_id;
        outgoing = outgoing;
        text = shown;
        time = some time;
        avatar_color = if outgoing then text "#5D8CFF" else text "#FFAF7A";
      })

  unfoldable pub append_system_message :
      MessageModel → q.QString → q.QString → q.QDateTime → MessageModel
  unfolding at_conversation maybe_insert_divider append_row
  append_system_message m conv_id shown time =
      append_row (maybe_insert_divider (at_conversation m conv_id) time)
        (record no_item { type = system; conv_id = conv_id; text = shown; time = some time })
