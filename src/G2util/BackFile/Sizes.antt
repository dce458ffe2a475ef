-- ===== src/G2util/BackFile/Sizes.antt =====
-- How large the buffer and the file grow.
use gof.Base.{◌<◌, arith, length, Text}
use gof.G2util.BackFile.{InnerIo, calm, file_copy_with_index, flush, write_locked, write}

-- what holds between the calls when the disk does not fail
pub record IsBounded (i : InnerIo) : Type 0 where
  pub buffer : length i.buf < i.opt.buffer_size
  pub file : length i.file < i.opt.file_max_size

-- With limits above zero and a disk that does not fail, a write to a log whose buffer is under its
-- limit and whose file is under the size at which it is backed up leaves both so.
pub write-IsBounded :
    (p : Text) (i : InnerIo)
    → 0 < i.opt.buffer_size
    → 0 < i.opt.file_max_size
    → IsBounded i
    → IsBounded (write calm p i).1.1
unfolding write write_locked flush file_copy_with_index
write-IsBounded p i b m h = record {
  buffer = ground (arith, h.buffer);
  file = ground (arith, h.file);
}
