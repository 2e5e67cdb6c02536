-- ===== src/FileCache/Getting.antt =====
-- filecache.go, Get.
use httpc.Prelude.{ℕ, ◌+◌, Option, none, some, List, [], is_some, if◌then◌else◌}
use httpc.Prelude.Text.{Text}
use httpc.Prelude.Int.{pos, ltb_ℤ}
use httpc.Prelude.Dict.{lookup, delete}
use httpc.Errors.{Err, sentinel, new, wrap, is_err, not_exist}
use httpc.Disk.{Entry, Disk}
use httpc.FileCache.{FileCache, World, is_expired, key_to_filename}

-- What the calls of Get return. Another process may take the file away before the read, or before the stat: then the
-- failure is `not_exist`.
pub record GetCalls : Type 0 where
  pub cancelled : Option Err
  pub timed_out : Option Err
  pub read_failure : Option Err
  pub timed_out_late : Option Err
  pub stat_failure : Option Err
  pub remove_failure : Option Err

-- os.ReadFile
abbrev pub read_file : Option Err → Option Entry → List ℕ × Option Err
read_file (some e) found = ([], some e)
read_file none none = ([], some (sentinel not_exist))
read_file none (some e) = if e.is_dir then ([], some (new "is a directory")) else (e.content, none)

-- a hit, or a miss; nil data is none
pub record Got : Type 0 where
  pub world : World
  pub content : Option (List ℕ)
  pub failure : Option Err

abbrev pub miss : FileCache → Disk → Got
miss c d = record {
  world = record {
    cache = record c { misses = c.misses + 1; misses_metric = c.misses_metric + 1 };
    disk = d;
  };
  content = none;
  failure = none;
}

abbrev pub hit : FileCache → Disk → List ℕ → Got
hit c d content = record {
  world = record {
    cache = record c { hits = c.hits + 1; hits_metric = c.hits_metric + 1 };
    disk = d;
  };
  content = some content;
  failure = none;
}

abbrev pub failing : FileCache → Disk → Err → Got
failing c d e = record { world = record { cache = c; disk = d }; content = none; failure = some e }

abbrev pub removed : Option Err → Text → Disk → Disk
removed failure name d = if is_some failure then d else delete name d

-- the block under "Check if cache entry is expired"
unfoldable pub check_age : GetCalls → FileCache → Text → List ℕ → ℕ → Disk → Got
check_age calls c name content now d = elim calls.stat_failure [
  | some e ↦
      if is_err not_exist e then miss c d else failing c d (wrap "failed to stat cache file" e)
  | none ↦ elim (lookup name d) [
    | none ↦ miss c d
    | some e ↦
        if is_expired c.ttl now e.mod_time
        then miss c (removed calls.remove_failure name d)
        else hit c d content
  ]
]

-- after the read
unfoldable pub settle : GetCalls → FileCache → Text → ℕ → Disk → List ℕ × Option Err → Got
settle calls c name now d (content, some e) =
    if is_err not_exist e then miss c d else failing c d (wrap "failed to read cache file" e)
settle calls c name now d (content, none) = elim calls.timed_out_late [
  | some e ↦ failing c d (wrap "cache read timeout" e)
  | none ↦ if ltb_ℤ (pos 0) c.ttl then check_age calls c name content now d else hit c d content
]

-- The parameter `digest` is that of key_to_filename.
module _ (digest : Text → Text) where
  unfoldable pub get : GetCalls → World → Text → ℕ → Got
  get calls w key now = elim calls.cancelled [
    | some e ↦ failing w.cache w.disk e
    | none ↦ elim calls.timed_out [
      | some e ↦ failing w.cache w.disk (wrap "cache read timeout" e)
      | none ↦
          let name = key_to_filename digest w.cache key in
          settle calls w.cache name now w.disk (read_file calls.read_failure (lookup name w.disk))
    ]
  ]
