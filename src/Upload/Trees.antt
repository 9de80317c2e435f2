-- ===== src/Upload/Trees.antt =====
-- internal/domain/trash.go and upload.go: the operations on a directory and all that is in it. Each
-- recursion has fuel; running out of it, which stands for a recursion that does not return, is the error out_of_fuel.
pub mod Bin
pub mod Erase
pub mod Rooted
pub mod Orphans
pub mod Ends
pub mod Contents
