-- ===== src/Spool/Names.antt =====
-- src/spool.rs: the files of a spool directory. `<id>.json` holds a record, `<id>.json.tmp` is the
-- file that `put` writes first; what has another name is no record.
use owlpost.Prelude.{String, String_discrete}
use owlpost.Record.{Dir, Dir-discrete}

pub data FileName : Type 0 where
  record_file temp_file other_file : String → FileName

unfoldable pub FileName-discrete : Discrete FileName
unfolding String_discrete
FileName-discrete = hlevel String_discrete

pub record FilePath : Type 0 where
  pub dir : Dir
  pub file : FileName

unfoldable pub FilePath-discrete : Discrete FilePath
unfolding Dir-discrete FileName-discrete
FilePath-discrete = hlevel (Dir-discrete, FileName-discrete)

-- `Spool::path`, and its temporary file
abbrev pub record_path : Dir → String → FilePath
record_path dir id = record { dir = dir; file = FileName.record_file id }

abbrev pub temp_path : Dir → String → FilePath
temp_path dir id = record { dir = dir; file = FileName.temp_file id }
