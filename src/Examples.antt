-- ===== src/Examples.antt =====
-- Runs of the model at concrete values.
mod People
mod Access
mod Signin
mod Places
mod Deploys
mod Archives
mod Watch
mod Retention
mod Templates
mod Conversions
mod Sweeps
mod Plans
