-- ===== src/Fs/Opened/Tests.antt =====
-- Files that a kernel has opened as 7.
use inel.Base.{false, true}
use inel.Base.Int.{pos}
use inel.RingResult.{RingResult}
use inel.Completion.Examples.{linux, V}
use inel.Ring.Examples.{accepting, idle}
use inel.Op.Call.{gives}
use inel.Op.Paths.{FilePath}
use inel.Source.{auto}
use inel.Fs.{OpenOptions}
use inel.Fs.File.{DirectFile, open_with, open_direct_with}
use inel.Fs.DirectFile.{make_regular}
use inel.Fs.Opened.{Closes, ClosesSlot, open-Closes}

abbrev reading : OpenOptions
reading = record {
  read = true;
  write = false;
  append = false;
  create = false;
  truncate = false;
  direct = false;
  permissions = record { raw = 0o600 };
}

abbrev file_name : FilePath
file_name = record { bytes = record { address = 4096; length = 6 }; is_absolute = true }

abbrev direct_file : DirectFile
direct_file = record { direct = auto (record { slot = 3 }) }

abbrev seven : RingResult
seven = record { ret = pos 7; flags = 0 }

open-Closes_example :
    Closes linux accepting V idle (pos 7) (gives (open_with reading file_name) seven)
    × Closes linux accepting V idle (pos 7) (gives (make_regular direct_file) seven)
    × ClosesSlot linux accepting V idle (pos 7) (gives (open_direct_with reading file_name) seven)
open-Closes_example = open-Closes linux accepting V idle reading file_name direct_file seven
