-- ===== src/Fs/Examples.antt =====
-- fseek in a file of 100 bytes, at position 10.
use flame_os.Base.{◌-◌, ◌^◌, ◌<◌, arith, true}
use flame_os.Fs.{File, seek_cur, fseek}
use flame_os.Fs.Seek.{fseek-pointer}
use flame_os.Fs.Table.{}

abbrev file : File
file = record {
  path = 0x18_0000_0000;
  volume = 1;
  pointer = 10;
  size = 100;
  flags = 0;
  used = true;
}

fseek-pointer_example :
    (fseek file (2 ^ 64 - 7) seek_cur).1.pointer < (fseek file (2 ^ 64 - 7) seek_cur).1.size
fseek-pointer_example =
    fseek-pointer file (2 ^ 64 - 7) seek_cur (omega arith) (omega arith) (omega arith)
