-- ===== src/Logger/Pattern.antt =====
-- `LogFormatter` of src/logger.cpp: the pattern of a log line, and what it prints of an event.
-- `isalpha` is a parameter.
use net_ninja.Common.{
  ℕ, zero, suc, Bool, true, false, not, ◌&&◌, ◌||◌, Option, none, some, List, [], ◌∷◌, ◌++◌, ◌==◌,
  if◌then◌else◌,
}
use net_ninja.Http.{Text, codes, same_text}
use net_ninja.Logger.Levels.{LogLevel, to_string}

pub data FormatItem : Type 0 where
  message : FormatItem
  level : FormatItem
  elapse : FormatItem
  name : FormatItem
  thread_id : FormatItem
  fiber_id : FormatItem
  date_time : Text → FormatItem
  filename : FormatItem
  line : FormatItem
  new_line : FormatItem
  string : Text → FormatItem
  tab : FormatItem
  thread_name : FormatItem

pub record LogFormatter : Type 0 where
  pub pattern : Text
  pub items : List FormatItem
  pub is_error : Bool

abbrev pub is_empty : Text → Bool
is_empty [] = true
is_empty (c ∷ s) = false

abbrev pub date_format : Text
date_format = codes "%Y-%m-%d %H:%M:%S"

unfoldable pub new_date_time : Text → FormatItem
new_date_time format = FormatItem.date_time (if is_empty format then date_format else format)

-- A tuple of the vector `vec`: a text as it stands has type 0, a directive has type 1.
pub record Part : Type 0 where
  pub str : Text
  pub fmt : Text
  pub type : ℕ

-- What the inner loop leaves: `n` is counted from the byte behind the percent sign.
pub record Escape : Type 0 where
  pub str : Text
  pub fmt : Text
  pub fmt_status : ℕ
  pub n : ℕ

-- The inner loop in status 1, behind the brace. `fmt` is what is read since.
unfoldable pub scan_format : ℕ → Text → Text → Text → Escape
scan_format n str fmt [] = record { str = str; fmt = []; fmt_status = 1; n = n }
scan_format n str fmt (c ∷ s) =
    let rest = scan_format (suc n) str (fmt ++ c ∷ []) s in
    if c == b'}' then record { str = str; fmt = fmt; fmt_status = 0; n = suc n } else rest

-- The next byte is a percent sign.
abbrev pub next_percent : Text → Bool
next_percent [] = false
next_percent (c ∷ s) = c == b'%'

-- A pending text is stored.
abbrev pub flush : Text → List Part
flush [] = []
flush (c ∷ s) = record { str = c ∷ s; fmt = []; type = 0 } ∷ []

-- `map::find`, by the texts of the keys.
abbrev pub find : List (Text × (Text → FormatItem)) → Text → Option (Text → FormatItem)
find [] key = none
find ((k, f) ∷ l) key = if same_text key k then some f else find l key

unfoldable pub s_format_items : List (Text × (Text → FormatItem))
s_format_items =
    (codes "m", λ fmt. FormatItem.message)
    ∷ (codes "p", λ fmt. FormatItem.level)
    ∷ (codes "r", λ fmt. FormatItem.elapse)
    ∷ (codes "c", λ fmt. FormatItem.name)
    ∷ (codes "t", λ fmt. FormatItem.thread_id)
    ∷ (codes "n", λ fmt. FormatItem.new_line)
    ∷ (codes "d", λ fmt. new_date_time fmt)
    ∷ (codes "f", λ fmt. FormatItem.filename)
    ∷ (codes "l", λ fmt. FormatItem.line)
    ∷ (codes "F", λ fmt. FormatItem.fiber_id)
    ∷ (codes "N", λ fmt. FormatItem.thread_name)
    ∷ (codes "T", λ fmt. FormatItem.tab)
    ∷ []

-- The last loop: the item of a part, and whether it is an error.
unfoldable pub to_item : Part → FormatItem × Bool
unfolding s_format_items
to_item p =
    if p.type == 0 then (FormatItem.string p.str, false) else elim (find s_format_items p.str) [
      | none ↦ (FormatItem.string (codes "<<error_format %" ++ p.str ++ codes ">>"), true)
      | some f ↦ (f p.fmt, false)
    ]

unfoldable pub to_items : List Part → List FormatItem × Bool
to_items [] = ([], false)
to_items (p ∷ l) = ((to_item p).0 ∷ (to_items l).0, (to_item p).1 || (to_items l).1)

module _ (isalpha : ℕ → Bool) where
  -- The byte ends the name of a directive.
  abbrev pub is_end : ℕ → Bool
  is_end c = not (isalpha c) && not (c == b'{') && not (c == b'}')

  -- The inner loop in status 0. `str` is what is read since the percent sign.
  unfoldable pub scan_name : ℕ → Text → Text → Escape
  scan_name n str [] = record { str = str; fmt = []; fmt_status = 0; n = n }
  scan_name n str (c ∷ s) =
      let rest = scan_name (suc n) (str ++ c ∷ []) s in
      if is_end c
      then record { str = str; fmt = []; fmt_status = 0; n = n }
      else if c == b'{'
      then scan_format (suc n) str [] s
      else rest

  -- The outer loop, over the bytes that are left. The first argument counts those that a directive has
  -- read, where the source moves `i`; the second is `nstr`. The results are `vec` and `m_error`.
  unfoldable pub split : ℕ → Text → Text → List Part × Bool
  split k nstr [] = (flush nstr, false)
  split (suc k) nstr (c ∷ s) = split k nstr s
  split zero nstr (c ∷ s) =
      let kept = split zero (nstr ++ c ∷ []) s in
      let e = scan_name 0 [] s in
      let parsed = split e.n [] s in
      let broken = split zero nstr s in
      if not (c == b'%')
      then kept
      else if next_percent s
      then kept
      else if e.fmt_status == 0
      then (flush nstr ++ record { str = e.str; fmt = e.fmt; type = 1 } ∷ parsed.0, parsed.1)
      else (record { str = codes "<<pattern_error>>"; fmt = e.fmt; type = 0 } ∷ broken.0, true)

  -- The constructor, with `init`.
  unfoldable pub new_formatter : Text → LogFormatter
  new_formatter pattern =
      let vec = split 0 [] pattern in
      record {
        pattern = pattern;
        items = (to_items vec.0).0;
        is_error = vec.1 || (to_items vec.0).1;
      }

-- An event, with the name of its logger.
pub record LogEvent : Type 0 where
  pub m_filename : Text
  pub m_line : ℕ
  pub m_elapse : ℕ
  pub m_thread_id : ℕ
  pub m_fiber_id : ℕ
  pub m_time : ℕ
  pub m_thread_name : Text
  pub m_content : Text
  pub m_logger_name : Text

-- `decimal` prints a number to a stream; `strftime` is what `localtime_r` and `strftime` leave in the
-- buffer of the given size.
module _ (decimal : ℕ → Text) (strftime : ℕ → Text → ℕ → Text) where
  unfoldable pub format_item : FormatItem → LogLevel → LogEvent → Text
  format_item FormatItem.message l e = e.m_content
  format_item FormatItem.level l e = to_string l
  format_item FormatItem.elapse l e = decimal e.m_elapse
  format_item FormatItem.name l e = e.m_logger_name
  format_item FormatItem.thread_id l e = decimal e.m_thread_id
  format_item FormatItem.fiber_id l e = decimal e.m_fiber_id
  format_item (FormatItem.date_time f) l e = strftime 64 f e.m_time
  format_item FormatItem.filename l e = e.m_filename
  format_item FormatItem.line l e = decimal e.m_line
  format_item FormatItem.new_line l e = 10 ∷ []
  format_item (FormatItem.string s) l e = s
  format_item FormatItem.tab l e = 9 ∷ []
  format_item FormatItem.thread_name l e = e.m_thread_name

  -- `LogFormatter::format`: what is written to the stream.
  unfoldable pub format : List FormatItem → LogLevel → LogEvent → Text
  format [] l e = []
  format (i ∷ items) l e = format_item i l e ++ format items l e
