-- ===== src/Adapter/Env.antt =====
-- What src/django_fast_multipart/parser.py asks of its surroundings: the settings, the upload
-- handlers, and the functions of Django and of Python's codecs. A handler may keep any state and
-- share it with the others: its answer is a function of all the calls made so far. An uploaded
-- file, or what a handler replies to the raw input, is named by a number.
use django_fast_multipart.Base.{ℕ, Bool, Option, List, Bytes, Text}
use django_fast_multipart.Exc.{Result}

abbrev pub Object : Type 0
Object = ℕ

-- Python's `int`.
pub data ℤ : Type 0 where
  pos : ℕ → ℤ
  negsuc : ℕ → ℤ

-- A `dict` by its items in order.
abbrev pub Params : Type 0
Params = List (Text × Text)

-- The arguments of `new_file`.
pub record FileInfo : Type 0 where
  pub field_name : Option Text
  pub file_name : Option Text
  pub content_type : Text
  pub content_length : Option ℤ
  pub charset : Option Bytes
  pub content_type_extra : List (Text × Bytes)

-- A call of the code outside; a handler is named by its index.
pub data Call : Type 0 where
  handle_raw_input : ℕ → Call
  read : ℕ → Call
  new_file : ℕ → FileInfo → Call
  receive_data_chunk : ℕ → Bytes → ℕ → Call
  file_complete : ℕ → ℕ → Call
  upload_complete : ℕ → Call
  upload_interrupted : ℕ → Call
  close_files : Call

-- All calls so far, the latest last.
abbrev pub History : Type 0
History = List Call

pub record Settings : Type 0 where
  pub data_upload_max_number_files : Option ℕ
  pub data_upload_max_number_fields : Option ℕ
  pub data_upload_max_memory_size : Option ℕ

pub record Env : Type 0 where
  pub settings : Settings
  -- `self._content_length`, `self._boundary`, `self._chunk_size`
  pub content_length : ℕ
  pub boundary : Bytes
  pub chunk_size : ℕ
  -- Django's `MAX_TOTAL_HEADER_SIZE`
  pub max_total_header_size : ℕ
  -- `len(self._upload_handlers)`
  pub handlers : ℕ
  -- the methods of handler `i`
  pub on_raw_input : History → ℕ → Result (Option Object)
  pub on_new_file : History → ℕ → FileInfo → Result (Unit {0})
  pub on_data_chunk : History → ℕ → Bytes → ℕ → Result (Option Bytes)
  pub on_file_complete : History → ℕ → ℕ → Result (Option Object)
  pub on_upload_complete : History → ℕ → Result Bool
  pub on_upload_interrupted : History → ℕ → Result (Unit {0})
  -- Django's `MultiPartParser._close_files`
  pub on_close_files : History → Result (Unit {0})
  -- `bool(uploaded_file)`
  pub is_truthy : Object → Bool
  -- Django's `parse_header_parameters`
  pub parse_header_parameters : Text → Result (Text × Params)
  -- Django's `force_str(…, self._encoding, errors="replace")` of a `str` and of `bytes`
  pub force_str : Text → Result Text
  pub force_str_bytes : Bytes → Result Text
  -- Django's `MultiPartParser.sanitize_file_name`
  pub sanitize_file_name : Text → Option Text
  -- `str.encode(self._encoding, errors="replace")`
  pub encode : Text → Result Bytes
  -- `str.lower`, by the tables of Unicode
  pub lower : Text → Text
  -- `int(text)`, by the tables of Unicode
  pub int_of : Text → Result ℤ
