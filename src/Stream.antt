-- ===== src/Stream.antt =====
-- stream.go, stream_splitter.go and release.go: bounded release of a stream.
pub mod Buffer
pub mod Splitter
