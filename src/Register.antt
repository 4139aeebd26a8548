-- ===== src/Register.antt =====
-- basic/register/bean.go and the event dispatcher of basic/register/message_dispatcher.go. A codec
-- is known by a number, its pointer; an event and a client by the number of its name, 0 for the
-- empty name. The locks are left out; an event's handler takes the connection and the message and
-- may return an error.
pub mod Codecs
use proto_q.Prelude.{
  ℕ, ◌+◌, Bool, true, false, Option, none, some, List, [], ◌∷◌, ◌++◌, ◌==◌, ◌||◌, if◌then◌else◌,
  Map, find, erase, put, length,
}
use proto_q.Bridge.{Codec}
use proto_q.Connection.{Conn, default_codec}
use proto_q.Dispatch.{
  Filter, MessageHandler, MessageDispatcher, new_message_dispatcher, register_handler,
}

pub record RegisteredCodec : Type 0 where
  pub pointer : ℕ
  pub codec : Codec
  pub matches : ℕ → Bool

abbrev pub CodecRegister : Type 0
CodecRegister = List RegisteredCodec

abbrev pub has_codec : ℕ → CodecRegister → Bool
has_codec pointer [] = false
has_codec pointer (c ∷ cs) = if c.pointer == pointer then true else has_codec pointer cs

-- A nil codec is `none`.
unfoldable pub register_codec : Option RegisteredCodec → CodecRegister → CodecRegister
register_codec none r = r
register_codec (some c) r = if has_codec c.pointer r then r else r ++ (c ∷ [])

-- The first registered codec that matches, and the default one where none does.
unfoldable pub match_codec : ℕ → CodecRegister → Codec
match_codec encrypt_type [] = default_codec
match_codec encrypt_type (c ∷ cs) =
    if c.matches encrypt_type then c.codec else match_codec encrypt_type cs

-- `Match` of the codec of `basic/codec/default.go`.
unfoldable pub default_matches : ℕ → Bool
default_matches encrypt_type = encrypt_type == 0

abbrev pub EventHandler : Type 0
EventHandler = Conn → ℕ → Option ℕ

abbrev pub EventDispatcher : Type 0
EventDispatcher = Map EventHandler

unfoldable pub register_event_handler : ℕ → EventHandler → EventDispatcher → EventDispatcher
register_event_handler event handler d = put event handler d

unfoldable pub get_event_handler : ℕ → EventDispatcher → Option EventHandler
get_event_handler event d = find event d

-- What the event's `Dispatch` returns: nil, the error of a missing handler, or the handler's.
pub data Emitted : Type 0 where
  ignored : Emitted
  event_handler_missing : ℕ → Emitted
  event_handled : Option ℕ → Emitted

unfoldable pub dispatch_event : Option Conn → ℕ → ℕ → EventDispatcher → Emitted
dispatch_event none event message d = ignored
dispatch_event (some c) event message d = if event == 0 then ignored else elim (find event d) [
  | none ↦ event_handler_missing event
  | some handler ↦ event_handled (handler c message)
]

-- `filters` is the register's own chain, which the dispatcher's does not share.
pub record BeanRegister : Type 0 where
  pub codecs : CodecRegister
  pub filters : List Filter
  pub messages : MessageDispatcher
  pub events : EventDispatcher
  pub connections : Map ℕ

unfoldable pub new_bean_register : BeanRegister
unfolding new_message_dispatcher
new_bean_register = record {
  codecs = [];
  filters = [];
  messages = new_message_dispatcher;
  events = [];
  connections = [];
}

-- A bean, by its dynamic type.
pub data Bean : Type 0 where
  codec_bean : RegisteredCodec → Bean
  filter_bean : Filter → Bean
  other_bean : Bean

unfoldable pub register_bean : Bean → BeanRegister → BeanRegister
unfolding register_codec
register_bean (codec_bean c) r = record r { codecs = register_codec (some c) r.codecs }
register_bean (filter_bean f) r = record r { filters = r.filters ++ (f ∷ []) }
register_bean other_bean r = r

unfoldable pub register_message_handler : ℕ → MessageHandler → BeanRegister → BeanRegister
unfolding register_handler
register_message_handler id handler r = record r {
  messages = register_handler id handler r.messages;
}

-- A connection is known by its pointer.
unfoldable pub add_connection : ℕ → ℕ → BeanRegister → BeanRegister
add_connection client conn r = record r { connections = put client conn r.connections }

unfoldable pub remove_connection : ℕ → BeanRegister → BeanRegister
remove_connection client r = record r { connections = erase client r.connections }

unfoldable pub get_connection : ℕ → BeanRegister → Option ℕ
get_connection client r = find client r.connections

unfoldable pub get_all_connections : BeanRegister → Map ℕ
get_all_connections r = r.connections

unfoldable pub connection_count : BeanRegister → ℕ
connection_count r = length r.connections
