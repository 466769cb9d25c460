-- ===== src/Record.antt =====
-- src/spool.rs: the stored record; src/answer.rs: the helpers that read and repair its `meta`.
use owlpost.Prelude.{String, Bool, Option}
use owlpost.Json.{Value, Map, obj, empty, get_str}

pub data Dir : Type 0 where
  inbox outbox asks done cache : Dir

unfoldable pub Dir-discrete : Discrete Dir
Dir-discrete = hlevel

pub record Record : Type 0 where
  pub raw : String
  pub sig : String
  pub state : String
  pub seen : Bool
  pub received_at : String
  pub draft : Option Value
  pub meta : Value

-- `meta_object`: the map in `meta`; anything else is replaced by an empty map.
unfoldable pub meta_object : Value → Map
meta_object (obj m) = m
meta_object _ = empty

abbrev pub with_meta : Map → Record → Record
with_meta m rec = record rec { meta = obj m }

-- `auto_error`
unfoldable pub auto_error : Record → Option String
unfolding get_str
auto_error rec = get_str "auto_error" rec.meta
