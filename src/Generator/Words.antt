-- ===== src/Generator/Words.antt =====
-- The names of tags, keys and types in src/code_generator/code_generator.cpp.
use coro_wayland.Base.{ℕ, List, [], ◌∷◌}

abbrev pub name_key : List ℕ
name_key = b'n' ∷ b'a' ∷ b'm' ∷ b'e' ∷ []

abbrev pub cppname_key : List ℕ
cppname_key = b'c' ∷ b'p' ∷ b'p' ∷ b'n' ∷ b'a' ∷ b'm' ∷ b'e' ∷ []

abbrev pub bind_name : List ℕ
bind_name = b'b' ∷ b'i' ∷ b'n' ∷ b'd' ∷ []

abbrev pub not_last_key : List ℕ
not_last_key = b'_' ∷ b'_' ∷ b'n' ∷ b'o' ∷ b't' ∷ b'_' ∷ b'l' ∷ b'a' ∷ b's' ∷ b't' ∷ []

abbrev pub true_text : List ℕ
true_text = b't' ∷ b'r' ∷ b'u' ∷ b'e' ∷ []

abbrev pub description_key : List ℕ
description_key = b'd' ∷ b'e' ∷ b's' ∷ b'c' ∷ b'r' ∷ b'i' ∷ b'p' ∷ b't' ∷ b'i' ∷ b'o' ∷ b'n' ∷ []

abbrev pub arg_tag : List ℕ
arg_tag = b'a' ∷ b'r' ∷ b'g' ∷ []

abbrev pub type_key : List ℕ
type_key = b't' ∷ b'y' ∷ b'p' ∷ b'e' ∷ []

abbrev pub interface_key : List ℕ
interface_key = b'i' ∷ b'n' ∷ b't' ∷ b'e' ∷ b'r' ∷ b'f' ∷ b'a' ∷ b'c' ∷ b'e' ∷ []

abbrev pub new_id_type : List ℕ
new_id_type = b'n' ∷ b'e' ∷ b'w' ∷ b'_' ∷ b'i' ∷ b'd' ∷ []

abbrev pub return_type_key : List ℕ
return_type_key = b'r' ∷ b'e' ∷ b't' ∷ b'u' ∷ b'r' ∷ b'n' ∷ b'_' ∷ b't' ∷ b'y' ∷ b'p' ∷ b'e' ∷ []

abbrev pub tail_key : List ℕ
tail_key = b'_' ∷ b'_' ∷ b't' ∷ b'a' ∷ b'i' ∷ b'l' ∷ []

abbrev pub version_name : List ℕ
version_name = b'v' ∷ b'e' ∷ b'r' ∷ b's' ∷ b'i' ∷ b'o' ∷ b'n' ∷ []

abbrev pub object_id_name : List ℕ
object_id_name = b'O' ∷ b'b' ∷ b'j' ∷ b'e' ∷ b'c' ∷ b't' ∷ b'I' ∷ b'd' ∷ []

abbrev pub object_type : List ℕ
object_type = b'o' ∷ b'b' ∷ b'j' ∷ b'e' ∷ b'c' ∷ b't' ∷ []

abbrev pub uint_type : List ℕ
uint_type = b'u' ∷ b'i' ∷ b'n' ∷ b't' ∷ []

abbrev pub uint32_name : List ℕ
uint32_name =
    b's' ∷ b't' ∷ b'd' ∷ b':' ∷ b':' ∷ b'u' ∷ b'i' ∷ b'n' ∷ b't' ∷ b'3' ∷ b'2' ∷ b'_' ∷ b't' ∷ []

abbrev pub int_type : List ℕ
int_type = b'i' ∷ b'n' ∷ b't' ∷ []

abbrev pub int32_name : List ℕ
int32_name = b's' ∷ b't' ∷ b'd' ∷ b':' ∷ b':' ∷ b'i' ∷ b'n' ∷ b't' ∷ b'3' ∷ b'2' ∷ b'_' ∷ b't' ∷ []

abbrev pub string_type : List ℕ
string_type = b's' ∷ b't' ∷ b'r' ∷ b'i' ∷ b'n' ∷ b'g' ∷ []

abbrev pub string_name : List ℕ
string_name = b's' ∷ b't' ∷ b'd' ∷ b':' ∷ b':' ∷ b's' ∷ b't' ∷ b'r' ∷ b'i' ∷ b'n' ∷ b'g' ∷ []

abbrev pub array_type : List ℕ
array_type = b'a' ∷ b'r' ∷ b'r' ∷ b'a' ∷ b'y' ∷ []

abbrev pub vector_name : List ℕ
vector_name =
    b's' ∷ b't' ∷ b'd' ∷ b':' ∷ b':' ∷ b'v' ∷ b'e' ∷ b'c' ∷ b't' ∷ b'o' ∷ b'r' ∷ b'<' ∷ b'c' ∷ b'h'
    ∷ b'a' ∷ b'r' ∷ b'>' ∷ []

abbrev pub fixed_type : List ℕ
fixed_type = b'f' ∷ b'i' ∷ b'x' ∷ b'e' ∷ b'd' ∷ []

abbrev pub fd_type : List ℕ
fd_type = b'f' ∷ b'd' ∷ []

abbrev pub handle_name : List ℕ
handle_name =
    b'F' ∷ b'i' ∷ b'l' ∷ b'e' ∷ b'D' ∷ b'e' ∷ b's' ∷ b'c' ∷ b'r' ∷ b'i' ∷ b'p' ∷ b't' ∷ b'o' ∷ b'r'
    ∷ b'H' ∷ b'a' ∷ b'n' ∷ b'd' ∷ b'l' ∷ b'e' ∷ []

abbrev pub entry_tag : List ℕ
entry_tag = b'e' ∷ b'n' ∷ b't' ∷ b'r' ∷ b'y' ∷ []

abbrev pub default_name : List ℕ
default_name = b'd' ∷ b'e' ∷ b'f' ∷ b'a' ∷ b'u' ∷ b'l' ∷ b't' ∷ []

abbrev pub k_default_name : List ℕ
k_default_name = b'k' ∷ b'D' ∷ b'e' ∷ b'f' ∷ b'a' ∷ b'u' ∷ b'l' ∷ b't' ∷ []

abbrev pub args_key : List ℕ
args_key = b'a' ∷ b'r' ∷ b'g' ∷ b's' ∷ []

abbrev pub entries_key : List ℕ
entries_key = b'e' ∷ b'n' ∷ b't' ∷ b'r' ∷ b'i' ∷ b'e' ∷ b's' ∷ []

abbrev pub extension_key : List ℕ
extension_key = b'e' ∷ b'x' ∷ b't' ∷ b'e' ∷ b'n' ∷ b's' ∷ b'i' ∷ b'o' ∷ b'n' ∷ []

abbrev pub request_tag : List ℕ
request_tag = b'r' ∷ b'e' ∷ b'q' ∷ b'u' ∷ b'e' ∷ b's' ∷ b't' ∷ []

abbrev pub event_tag : List ℕ
event_tag = b'e' ∷ b'v' ∷ b'e' ∷ b'n' ∷ b't' ∷ []

abbrev pub enum_tag : List ℕ
enum_tag = b'e' ∷ b'n' ∷ b'u' ∷ b'm' ∷ []

abbrev pub num_key : List ℕ
num_key = b'n' ∷ b'u' ∷ b'm' ∷ []

abbrev pub event_suffix : List ℕ
event_suffix = b'E' ∷ b'v' ∷ b'e' ∷ b'n' ∷ b't' ∷ []

abbrev pub requests_key : List ℕ
requests_key = b'r' ∷ b'e' ∷ b'q' ∷ b'u' ∷ b'e' ∷ b's' ∷ b't' ∷ b's' ∷ []

abbrev pub events_key : List ℕ
events_key = b'e' ∷ b'v' ∷ b'e' ∷ b'n' ∷ b't' ∷ b's' ∷ []

abbrev pub enums_key : List ℕ
enums_key = b'e' ∷ b'n' ∷ b'u' ∷ b'm' ∷ b's' ∷ []

abbrev pub interfaces_key : List ℕ
interfaces_key = b'i' ∷ b'n' ∷ b't' ∷ b'e' ∷ b'r' ∷ b'f' ∷ b'a' ∷ b'c' ∷ b'e' ∷ b's' ∷ []
