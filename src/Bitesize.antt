-- ===== src/Bitesize.antt =====
-- pkg/bitesize: the types of the configuration, blue/green services, volumes and autoscaling.
pub mod Types
pub mod Zero
pub mod Colour
pub mod Service
pub mod Names
pub mod BlueGreen
pub mod Gists
pub mod Volumes
pub mod Autoscaling
pub mod Loading
pub mod Unmarshal
pub mod Quantities
pub mod Imports
