-- ===== src/Torrent.antt =====
-- internal/torrentmeta/torrentmeta.go: bounded metadata of magnets and torrents.
pub mod Names
pub mod Hash
pub mod Trackers
pub mod Files
pub mod Parse
