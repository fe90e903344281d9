-- ===== src/Server/Repositories.antt =====
-- crates/procnote-app/src/repository.rs: lemmas on the two implementations of the trait.
