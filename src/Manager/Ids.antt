-- ===== src/Manager/Ids.antt =====
-- Full instance ids, "server/id", of src/manager.cpp.
use kvm_cloud.Base.{◌≡◌, append_assoc, Bytes, Lacks}
use kvm_cloud.Std.Text.{before_char-append, after_char-append, before_char-Lacks, after_char-Lacks}
use kvm_cloud.Manager.{make_full_id, extract_id_parts}

-- A full id is taken apart into the server and the id that it was made of, if the server's name has
-- no slash; the id may be any text.
pub extract_id_parts-make_full_id :
    (server id : Bytes)
    → Lacks b'/' server
    → extract_id_parts (make_full_id server id) ≡ (server, id)
unfolding extract_id_parts make_full_id
extract_id_parts-make_full_id server id h =
    rw append_assoc
      λ i. (before_char-append b'/' server id h i, after_char-append b'/' server id h i)

-- A text without a slash is taken both as the server and as the id.
pub extract_id_parts-Lacks : (text : Bytes) → Lacks b'/' text → extract_id_parts text ≡ (text, text)
unfolding extract_id_parts
extract_id_parts-Lacks text h =
    λ i. (before_char-Lacks b'/' text h i, after_char-Lacks b'/' text h i)
