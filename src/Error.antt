-- ===== src/Error.antt =====
-- The errors that the modelled functions return through `anyhow`, by the place that makes them.
use owlpost.Prelude.{String}
use owlpost.Spool.Names.{FilePath}
use owlpost.Record.{Dir}

pub data Error : Type 0 where
  writing renaming reading parsing removing : FilePath → Error
  listing : Dir → Error
  moving : FilePath → FilePath → Error
  no_record : Dir → String → Error
  finishing : String → Error → Error
  bad_payload : String → Error
  message : String → Error
