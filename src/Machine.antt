-- ===== src/Machine.antt =====
-- The state that the program's static members hold, and the monad of its functions: inc/common.h,
-- inc/Block.h, inc/SuperBlock.h, inc/Log.h, inc/DiskINode.h, inc/INode.h, inc/OFile.h.
mod Constants
mod Keyed
mod Order
mod State
pub use Constants.*
unfoldable pub use Keyed.*
unfoldable pub use Order.*
unfoldable pub use State.*
