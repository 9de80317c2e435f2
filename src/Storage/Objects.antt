-- ===== src/Storage/Objects.antt =====
-- The objects of a store after a write or a deletion.
use fileupload.World.{Object}
use fileupload.Base.{[], eq_iff, ◌∷◌, arith, none, some, ◌==◌, if◌then◌else◌, ◌≡◌, List, Bytes}
use fileupload.Storage.LocalFs.{put_object, remove_object, object_at}

pub object_at-remove_object :
    (p q : Bytes) (os : List Object)
    → object_at q (remove_object p os) ≡ (if p == q then none else object_at q os)
unfolding object_at remove_object
object_at-remove_object p q [] = ground arith
object_at-remove_object p q (o ∷ os) =
    ground (arith, eq_iff p q, eq_iff o.path p, eq_iff o.path q, object_at-remove_object p q os)

pub object_at-put_object :
    (p c q : Bytes) (os : List Object)
    → object_at q (put_object p c os) ≡ (if p == q then some c else object_at q os)
unfolding object_at put_object
object_at-put_object p c q os = ground (arith, object_at-remove_object p q os)
